-- ===== src/Quote/Literal.antt =====
-- PostgreSQL's lexer for a string literal, and that it reads back what is quoted.
use rds_dbsync.Base.{
  ℕ, ◌≡◌, refl, Bool, true, false, ◌||◌, ◌&&◌, Option, none, some, [], ◌∷◌, ◌++◌, append_assoc,
  arith, Text, ◌==◌, if◌then◌else◌, Bool-cases, inl, inr,
}
use rds_dbsync.Quote.{
  quote, backslash, Escapes, has_backslash, double_specials, quote_literal_internal,
}

-- Inside the literal, behind a quote that may end it, and behind a backslash.
pub data Mode : Type 0 where
  inside pending escaped : Mode

abbrev put : ℕ → Option (Text × Text) → Option (Text × Text)
put c none = none
put c (some (t, rest)) = some (c ∷ t, rest)

-- The body of a literal, up to its end: the value, and what follows. Two quotes stand for one.
-- With the escape syntax a backslash takes the next quote or backslash for itself; the other
-- escape sequences are not described (`none`).
pub lex : Bool → Mode → Text → Option (Text × Text)
lex e pending [] = some ([], [])
lex e mode [] = none
lex e inside (c ∷ cs) =
    let more =
      lex e (if c == quote then pending else if e && c == backslash then escaped else inside) cs in
    if c == quote then more else if e && c == backslash then more else put c more
lex e pending (c ∷ cs) =
    let more = lex e inside cs in if c == quote then put c more else some ([], c ∷ cs)
lex e escaped (c ∷ cs) =
    let more = lex e inside cs in if c == quote || c == backslash then put c more else none

escape_literal : ℕ → Text → Option (Text × Text)
escape_literal c [] = none
escape_literal c (d ∷ cs) = if c == b'E' && d == quote then lex true inside cs else none

-- A literal: a quoted body, or an `E` and a body with escapes.
pub sql_literal : Text → Option (Text × Text)
unfolding escape_literal
sql_literal [] = none
sql_literal (c ∷ cs) = if c == quote then lex false inside cs else escape_literal c cs

-- What stands behind a literal does not go on with it.
abbrev pub EndsLiteral : Text → Type 0
EndsLiteral [] = Unit {0}
EndsLiteral (c ∷ cs) = (c == quote) ≡ false

module _ (esc : Escapes) where
  lex-double_specials :
      (e : Bool) (t rest : Text)
      → (e || has_backslash t) ≡ e
      → EndsLiteral rest
      → lex e inside (double_specials esc t ++ (quote ∷ rest)) ≡ some (t, rest)
  unfolding lex double_specials has_backslash
  lex-double_specials e [] [] h k = ground arith
  lex-double_specials e [] (c ∷ rest) h k = ground arith
  lex-double_specials e (c ∷ t) rest h k =
      rw (esc.str_double_lem c) (ground (arith, lex-double_specials e t rest))

  -- What is quoted is one literal, and stands for the text: the lexer reads the text back,
  -- whatever bytes it has, and stops where the literal ends, if what follows does not start with
  -- a quote.
  pub sql_literal-quote_literal_internal :
      (t rest : Text)
      → EndsLiteral rest
      → sql_literal (quote_literal_internal esc t ++ rest) ≡ some (t, rest)
  unfolding sql_literal quote_literal_internal
  sql_literal-quote_literal_internal t rest k = elim (Bool-cases (has_backslash t)) [
    | inl yes_ ↦
        rw (yes_, esc.escape_string_syntax_lem, append_assoc)
          (lex-double_specials true t rest refl k)
    | inr no_ ↦ rw (no_, append_assoc) (lex-double_specials false t rest no_ k)
  ]
