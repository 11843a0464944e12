-- ===== src/Quote.antt =====
-- Literals: `quote_literal_internal` (dbsync/misc.c), `quote_literal_local` (dbsync/utils.c) and
-- `quote_literal_local_withoid` (dbsync/mysql2pgsql.c).
pub mod Literal
pub mod Csv
use rds_dbsync.Base.{
  ℕ, ◌≡◌, Bool, true, false, ◌||◌, Option, none, some, List, [], ◌∷◌, ◌++◌, Text, codes, str_eq,
  ◌==◌, if◌then◌else◌,
}

abbrev pub quote : ℕ
quote = 39

abbrev pub backslash : ℕ
backslash = 92

-- PostgreSQL's `SQL_STR_DOUBLE` and `ESCAPE_STRING_SYNTAX`, with what its headers say of them.
pub record Escapes : Type 0 where
  pub str_double : ℕ → Bool → Bool
  pub escape_string_syntax : ℕ
  pub str_double_lem : (c : ℕ) → str_double c true ≡ (c == quote || c == backslash)
  pub escape_string_syntax_lem : escape_string_syntax ≡ b'E'

unfoldable pub has_backslash : Text → Bool
has_backslash [] = false
has_backslash (c ∷ cs) = c == backslash || has_backslash cs

pub data TypeOid : Type 0 where
  text timestamptz timestamp int2 int4 int8 float4 float8 numeric : TypeOid

-- The types whose values are written as they are.
pub is_plain_type : Text → Bool
unfolding str_eq
is_plain_type t =
    str_eq t (codes "smallint")
    || (str_eq t (codes "integer")
        || (str_eq t (codes "bigint")
            || (str_eq t (codes "oid")
                || (str_eq t (codes "real")
                    || (str_eq t (codes "double precision") || str_eq t (codes "numeric"))))))

-- The types whose values are written between quotes, and not escaped.
pub is_quoted_type : Text → Bool
unfolding str_eq
is_quoted_type t =
    str_eq t (codes "timestamp without time zone")
    || (str_eq t (codes "timestamp with time zone")
        || (str_eq t (codes "time without time zone")
            || (str_eq t (codes "time with time zone")
                || (str_eq t (codes "money")
                    || (str_eq t (codes "date") || str_eq t (codes "interval"))))))

-- The MySQL dates that PostgreSQL does not know.
pub is_zero_date : Text → Bool
unfolding str_eq
is_zero_date t =
    str_eq t (codes "0000-00-00")
    || (str_eq t (codes "00:00:00")
        || (str_eq t (codes "0000-00-00 00:00:00") || str_eq t (codes "0000")))

module _ (esc : Escapes) where
  -- The second loop of `quote_literal_internal`.
  pub double_specials : Text → Text
  double_specials [] = []
  double_specials (c ∷ cs) =
      let rest = double_specials cs in if esc.str_double c true then c ∷ c ∷ rest else c ∷ rest

  pub quote_literal_internal : Text → Text
  unfolding has_backslash
  quote_literal_internal src =
      let literal : Text = quote ∷ (double_specials src ++ quote ∷ []) in
      if has_backslash src then esc.escape_string_syntax ∷ literal else literal

  pub typed_literal : Text → Text → Text
  typed_literal raw type_name =
      if is_plain_type type_name
      then raw
      else if is_quoted_type type_name
      then quote ∷ (raw ++ quote ∷ [])
      else quote_literal_internal raw

  -- A null value or type is a null pointer that is read: `none`.
  abbrev pub quote_literal_local : Option Text → Option Text → Option Text
  quote_literal_local (some raw) (some type_name) = some (typed_literal raw type_name)
  quote_literal_local _ _ = none

  unfoldable pub quote_literal_local_withoid : Text → TypeOid → Text
  quote_literal_local_withoid raw int2 = raw
  quote_literal_local_withoid raw int4 = raw
  quote_literal_local_withoid raw int8 = raw
  quote_literal_local_withoid raw float4 = raw
  quote_literal_local_withoid raw float8 = raw
  quote_literal_local_withoid raw numeric = raw
  quote_literal_local_withoid raw timestamp = if is_zero_date raw then [] else raw
  quote_literal_local_withoid raw text = quote_literal_internal raw
  quote_literal_local_withoid raw timestamptz = quote_literal_internal raw
