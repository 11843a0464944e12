-- ===== src/Quote/Csv.antt =====
-- The fields that `mysql2pgsql_copy_data` (dbsync/mysql2pgsql.c) writes for `COPY .. FROM stdin
-- DELIMITERS '|' with csv QUOTE ''''`, and how the target reads them.
use rds_dbsync.Base.{
  ℕ, ◌≡◌, refl, ap, Bool, true, false, ◌||◌, [], ◌∷◌, ◌++◌, append_assoc, arith, Text, ◌==◌,
  if◌then◌else◌, Bool-cases, inl, inr, not, ◌&&◌,
}
use rds_dbsync.Quote.{
  TypeOid, timestamp, quote, backslash, Escapes, has_backslash, double_specials,
  quote_literal_internal,
}

abbrev pub delimiter : ℕ
delimiter = b'|'

pub data Mode : Type 0 where
  plain quoted pending : Mode

abbrev put : ℕ → Text × Text → Text × Text
put c (t, rest) = (c ∷ t, rest)

abbrev pub ends_field : ℕ → Bool
ends_field c = c == delimiter || c == b'\n'

-- The characters of a field of the CSV format whose quote and escape are the same, and the rest
-- from the delimiter on. Outside quotes every other character stands for itself, and within them
-- two quotes stand for one. Whether there was a quote, which tells an empty text from NULL, is not
-- kept.
pub csv_field : Mode → Text → Text × Text
csv_field mode [] = ([], [])
csv_field quoted (c ∷ cs) =
    let more = csv_field (if c == quote then pending else quoted) cs in
    if c == quote then more else put c more
csv_field plain (c ∷ cs) =
    let more = csv_field (if c == quote then quoted else plain) cs in
    if ends_field c then ([], c ∷ cs) else if c == quote then more else put c more
csv_field pending (c ∷ cs) =
    let more = csv_field (if c == quote then quoted else plain) cs in
    if c == quote then put c more else if ends_field c then ([], c ∷ cs) else put c more

-- The field ends here.
abbrev pub EndsField : Text → Type 0
EndsField [] = Unit {0}
EndsField (c ∷ cs) = ends_field c ≡ true

-- Every backslash twice.
pub double_backslashes : Text → Text
double_backslashes [] = []
double_backslashes (c ∷ cs) =
    let rest = double_backslashes cs in if c == backslash then c ∷ c ∷ rest else c ∷ rest

double_backslashes_lem : (t : Text) → has_backslash t ≡ false → double_backslashes t ≡ t
unfolding double_backslashes has_backslash
double_backslashes_lem [] h = refl
double_backslashes_lem (c ∷ t) h = ground (arith, double_backslashes_lem t)

abbrev pub is_timestamp : TypeOid → Bool
is_timestamp timestamp = true
is_timestamp _ = false

-- No character of the text has a meaning of its own outside quotes.
abbrev pub is_simple : Text → Bool
is_simple [] = true
is_simple (c ∷ cs) = not (c == quote) && (not (ends_field c) && is_simple cs)

pub csv_field-simple :
    (t rest : Text) → EndsField rest → is_simple t ≡ true → csv_field plain (t ++ rest) ≡ (t, rest)
unfolding csv_field
csv_field-simple [] [] k h = refl
csv_field-simple [] (c ∷ rest) k h = ground arith
csv_field-simple (c ∷ t) rest k h = ground (arith, csv_field-simple t rest)

module _ (esc : Escapes) where
  csv_field-double_specials :
      (t rest : Text)
      → EndsField rest
      → csv_field quoted (double_specials esc t ++ (quote ∷ rest)) ≡ (double_backslashes t, rest)
  unfolding csv_field double_specials double_backslashes
  csv_field-double_specials [] [] k = ground arith
  csv_field-double_specials [] (c ∷ rest) k = ground arith
  csv_field-double_specials (c ∷ t) rest k =
      rw (esc.str_double_lem c) (ground (arith, csv_field-double_specials t rest))

  -- The reader of a copied field that ends behind the quoted text gets the text, if it has no
  -- backslash; else it gets an E and the text with its backslashes doubled.
  pub csv_field-quote_literal_internal :
      (t rest : Text)
      → EndsField rest
      → csv_field plain (quote_literal_internal esc t ++ rest)
        ≡ ((if has_backslash t then b'E' ∷ double_backslashes t else t), rest)
  unfolding csv_field quote_literal_internal
  csv_field-quote_literal_internal t rest k = elim (Bool-cases (has_backslash t)) [
    | inl yes_ ↦
        rw (yes_, esc.escape_string_syntax_lem, append_assoc)
          (ap (put b'E') (csv_field-double_specials t rest k))
    | inr no_ ↦
        rw (no_, append_assoc)
          (rw (csv_field-double_specials t rest k, double_backslashes_lem t no_))
  ]

  -- Without a backslash it begins with the quote.
  pub quote_literal_internal-quote :
      (t : Text)
      → has_backslash t ≡ false
      → (more : Text) × (quote_literal_internal esc t ≡ quote ∷ more)
  unfolding quote_literal_internal
  quote_literal_internal-quote t h = (double_specials esc t ++ quote ∷ [], rw h refl)
