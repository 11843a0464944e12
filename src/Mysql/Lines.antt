-- ===== src/Mysql/Lines.antt =====
-- How the target reads the lines that a COPY is sent.
use rds_dbsync.Base.{
  arith, Bool, Bool-cases, inl, inr, ℕ, zero, suc, ◌≡◌, refl, true, false, Option, none, some, List,
  [], ◌∷◌, ◌++◌, Text, length, c_string, ◌==◌, ◌&&◌, if◌then◌else◌, append_assoc,
}
use rds_dbsync.Quote.{
  Escapes, TypeOid, text, timestamptz, timestamp, int2, int4, int8, float4, float8, numeric,
  has_backslash, is_zero_date, quote_literal_internal, quote_literal_local_withoid,
}
use rds_dbsync.Quote.Csv.{
  plain, csv_field, ends_field, quote_literal_internal-quote, csv_field-quote_literal_internal,
  EndsField, is_simple, is_timestamp, csv_field-simple, delimiter,
}
use rds_dbsync.Mysql.Copy.{Row, cell_text}
use rds_dbsync.Mysql.Chunks.{fields_text}

abbrev pub behind_delimiter : Text → Text
behind_delimiter [] = []
behind_delimiter (c ∷ cs) = if c == delimiter then cs else c ∷ cs

-- No character stands before the end of the field, not even a quote.
abbrev is_nothing : Text → Bool
is_nothing [] = true
is_nothing (c ∷ cs) = ends_field c

-- A field as the CSV format takes it: one without any character is NULL, and `''` the empty text.
abbrev pub csv_value : Text → Option Text × Text
csv_value t =
    let (value, rest) = csv_field plain t in if is_nothing t then (none, t) else (some value, rest)

-- The first fields of a line, and what stands behind them.
unfoldable pub csv_fields : ℕ → Text → List (Option Text) × Text
csv_fields zero t = ([], t)
csv_fields (suc n) t =
    let (value, rest) = csv_value t in
    let (values, behind) = csv_fields n (behind_delimiter rest) in (value ∷ values, behind)

-- A value without a character that has a meaning in the format, or NULL.
abbrev pub IsSimple : Option (List ℕ) → Type 0
IsSimple none = Unit
IsSimple (some v) = (has_backslash (c_string v) ≡ false) × (is_simple (c_string v) ≡ true)

-- The types whose values are quoted.
abbrev pub is_quoted : TypeOid → Bool
is_quoted text = true
is_quoted timestamptz = true
is_quoted _ = false

abbrev pub or_null : Text → Option Text
or_null [] = none
or_null (c ∷ cs) = some (c ∷ cs)

-- What the target has for a value of the source: a NULL for a NULL, for an unknown date in a
-- timestamp, and for the empty text where it is not quoted.
abbrev pub target_value : TypeOid → Option (List ℕ) → Option Text
target_value o none = none
target_value o (some v) =
    if is_quoted o
    then some (c_string v)
    else if is_timestamp o && is_zero_date (c_string v)
    then none
    else or_null (c_string v)

abbrev pub target_values : List TypeOid → ℕ → Row → List (Option Text)
target_values [] i row = []
target_values (o ∷ os) i row = target_value o (row i) ∷ target_values os (suc i) row

-- Outside quotes.
csv_value-simple :
    (t rest : Text)
    → EndsField rest
    → is_simple t ≡ true
    → csv_value (t ++ rest) ≡ (or_null t, rest)
csv_value-simple [] [] k h = refl
csv_value-simple [] (c ∷ rest) k h = rw k refl
csv_value-simple (c ∷ t) rest k h = rw (not_end c t h, csv_field-simple (c ∷ t) rest k h) refl
  where
    not_end : (c : ℕ) (t : Text) → is_simple (c ∷ t) ≡ true → ends_field c ≡ false
    not_end c t h = ground arith

-- Within quotes.
csv_value-quoted :
    (esc : Escapes) (t rest : Text)
    → EndsField rest
    → has_backslash t ≡ false
    → csv_value (quote_literal_internal esc t ++ rest) ≡ (some t, rest)
csv_value-quoted esc t rest k h =
    let (more, starts) = quote_literal_internal-quote esc t h in
    let read = csv_field-quote_literal_internal esc t rest k in
    let nothing : is_nothing (quote_literal_internal esc t ++ rest) ≡ false = rw starts refl in
    rw (nothing, read, h) refl

csv_value-cell_text :
    (esc : Escapes) (o : TypeOid) (v : Option (List ℕ)) (rest : Text)
    → IsSimple v
    → EndsField rest
    → csv_value (cell_text esc o v ++ rest) ≡ (target_value o v, rest)
unfolding quote_literal_local_withoid
csv_value-cell_text esc o none rest h k = csv_value-simple [] rest k refl
csv_value-cell_text esc text (some v) rest h k = csv_value-quoted esc (c_string v) rest k h.0
csv_value-cell_text esc timestamptz (some v) rest h k = csv_value-quoted esc (c_string v) rest k h.0
csv_value-cell_text esc timestamp (some v) rest h k =
    elim (Bool-cases (is_zero_date (c_string v))) [
      | inl zero_ ↦ rw zero_ (csv_value-simple [] rest k refl)
      | inr known_ ↦ rw known_ (csv_value-simple (c_string v) rest k h.1)
    ]
csv_value-cell_text esc int2 (some v) rest h k = csv_value-simple (c_string v) rest k h.1
csv_value-cell_text esc int4 (some v) rest h k = csv_value-simple (c_string v) rest k h.1
csv_value-cell_text esc int8 (some v) rest h k = csv_value-simple (c_string v) rest k h.1
csv_value-cell_text esc float4 (some v) rest h k = csv_value-simple (c_string v) rest k h.1
csv_value-cell_text esc float8 (some v) rest h k = csv_value-simple (c_string v) rest k h.1
csv_value-cell_text esc numeric (some v) rest h k = csv_value-simple (c_string v) rest k h.1

-- What stands behind the first field of a line.
abbrev behind_field : Escapes → List TypeOid → ℕ → Row → Text → Text
behind_field esc os i row rest = fields_text esc os (suc i) row ++ (10 ∷ rest)

behind_field-EndsField :
    (esc : Escapes) (os : List TypeOid) (i : ℕ) (row : Row) (rest : Text)
    → EndsField (behind_field esc os i row rest)
behind_field-EndsField esc [] i row rest = refl
behind_field-EndsField esc (o ∷ os) i row rest = refl

one_field :
    (esc : Escapes) (os : List TypeOid) (o : TypeOid) (i : ℕ) (row : Row) (rest : Text)
    → IsSimple (row i)
    → csv_fields (length os) (behind_delimiter (behind_field esc os i row rest))
      ≡ (target_values os (suc i) row, 10 ∷ rest)
    → csv_fields (suc (length os)) (cell_text esc o (row i) ++ behind_field esc os i row rest)
      ≡ (target_values (o ∷ os) i row, 10 ∷ rest)
unfolding csv_fields
one_field esc os o i row rest h k =
    rw
      (
        csv_value-cell_text esc o (row i) (behind_field esc os i row rest) h
            (behind_field-EndsField esc os i row rest),
        k,
      )
      refl

later_fields :
    (esc : Escapes) (os : List TypeOid) (i : ℕ) (row : Row) (rest : Text)
    → ((j : ℕ) → IsSimple (row j))
    → csv_fields (length os) (behind_delimiter (behind_field esc os i row rest))
      ≡ (target_values os (suc i) row, 10 ∷ rest)
unfolding csv_fields
later_fields esc [] i row rest h = refl
later_fields esc (o ∷ os) i row rest h =
    rw
      (append_assoc (cell_text esc o (row (suc i))) (fields_text esc os (suc (suc i)) row)
        (10 ∷ rest))
      (one_field esc os o (suc i) row rest (h (suc i)) (later_fields esc os (suc i) row rest h))

-- The target reads the line of a row whose values have no character that is special to the format:
-- a NULL as NULL, a value of a quoted type as itself, the empty one too, and a value of another type
-- as itself but NULL where it is empty; a date that the target does not know, in a timestamp, is
-- NULL. The line feed is left.
pub csv_fields-fields_text :
    (esc : Escapes) (os : List TypeOid) (row : Row) (rest : Text)
    → ((i : ℕ) → IsSimple (row i))
    → csv_fields (length os) (fields_text esc os 0 row ++ (10 ∷ rest))
      ≡ (target_values os 0 row, 10 ∷ rest)
unfolding csv_fields
csv_fields-fields_text esc [] row rest h = refl
csv_fields-fields_text esc (o ∷ os) row rest h =
    rw (append_assoc (cell_text esc o (row 0)) (fields_text esc os 1 row) (10 ∷ rest))
      (one_field esc os o 0 row rest (h 0) (later_fields esc os 0 row rest h))
