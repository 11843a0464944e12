-- ===== src/Mysql/Columns.antt =====
-- The statement that `fetch_colmum_info` prints, and the types that it returns.
use rds_dbsync.Base.{
  ℕ, suc, ◌≡◌, refl, sym, ap, ◌∙◌, Bool, Option, Option-cases, inl, inr, some, List, [], ◌∷◌, ◌++◌,
  Text, codes, ◌>>=◌, map_option, map_map_option, append_assoc, append-nil, map_option_ext,
}
use rds_dbsync.Quote.{
  TypeOid, text, timestamptz, timestamp, int2, int4, int8, float4, float8, numeric,
}
use rds_dbsync.Mysql.{
  FieldType, mysql_type_varchar, mysql_type_var_string, mysql_type_string, mysql_type_bit,
  mysql_type_blob, mysql_type_long_blob, mysql_type_timestamp, mysql_type_date, mysql_type_time,
  mysql_type_datetime, mysql_type_year, mysql_type_newdate, mysql_type_short, mysql_type_tiny,
  mysql_type_long, mysql_type_longlong, mysql_type_float, mysql_type_double, mysql_type_decimal,
  mysql_type_newdecimal, mysql_type_int24, other, Field, Options, Ddl, column_type, after_column,
  add_columns, fetch_colmum_info, ddl_start, ddl_end,
}

-- The name that PostgreSQL has for a type.
abbrev pub type_name : TypeOid → Text
type_name text = codes "text"
type_name timestamptz = codes "timestamptz"
type_name timestamp = codes "timestamp"
type_name int2 = codes "int2"
type_name int4 = codes "int4"
type_name int8 = codes "int8"
type_name float4 = codes "float4"
type_name float8 = codes "float8"
type_name numeric = codes "numeric"

abbrev pub oid_of : FieldType → Option TypeOid
oid_of t = map_option (λ p. p.1) (column_type t)

named : Option TypeOid → Option (Text × TypeOid)
named o = map_option (λ t. (type_name t, t)) o

-- The name that the statement gives a column's type is that of the type's number.
column_type-named : (t : FieldType) → column_type t ≡ named (oid_of t)
unfolding named
column_type-named mysql_type_varchar = refl
column_type-named mysql_type_var_string = refl
column_type-named mysql_type_string = refl
column_type-named mysql_type_bit = refl
column_type-named mysql_type_blob = refl
column_type-named mysql_type_long_blob = refl
column_type-named mysql_type_timestamp = refl
column_type-named mysql_type_date = refl
column_type-named mysql_type_time = refl
column_type-named mysql_type_datetime = refl
column_type-named mysql_type_year = refl
column_type-named mysql_type_newdate = refl
column_type-named mysql_type_short = refl
column_type-named mysql_type_tiny = refl
column_type-named mysql_type_long = refl
column_type-named mysql_type_longlong = refl
column_type-named mysql_type_float = refl
column_type-named mysql_type_double = refl
column_type-named mysql_type_decimal = refl
column_type-named mysql_type_newdecimal = refl
column_type-named mysql_type_int24 = refl
column_type-named (other n) = refl

-- The types of the columns; `none` if one has none in the target.
abbrev pub types_of : List Field → Option (List TypeOid)
types_of [] = some []
types_of (field ∷ fields) =
    oid_of field.field_type >>= λ o. map_option (λ os. o ∷ os) (types_of fields)

-- A name and a type for each column.
abbrev pub columns : List Field → List TypeOid → List Text
columns (field ∷ fields) (o ∷ os) = (field.org_name ++ codes " " ++ type_name o) ∷ columns fields os
columns _ _ = []

abbrev each_behind : Text → List Text → Text
each_behind sep [] = []
each_behind sep (t ∷ ts) = sep ++ t ++ each_behind sep ts

-- The texts with the separator between them.
abbrev pub join : Text → List Text → Text
join sep [] = []
join sep (t ∷ ts) = t ++ each_behind sep ts

abbrev pub first_name : List Field → Text
first_name [] = []
first_name (field ∷ fields) = field.org_name

abbrev extend : Ddl → List Field → List TypeOid → Ddl
extend d fields os = record {
  ddl = d.ddl ++ each_behind (codes ", ") (columns fields os);
  col_type = d.col_type ++ os;
  first_col_name = d.first_col_name;
}

snoc_column :
    (d sep name type rest : Text)
    → (d ++ sep ++ name ++ codes " " ++ type) ++ rest
      ≡ d ++ (sep ++ (name ++ codes " " ++ type) ++ rest)
snoc_column d sep name type rest = simp append_assoc refl

extend-cons :
    (field : Field) (fields : List Field) (i : ℕ) (d : Ddl) (o : TypeOid) (os : List TypeOid)
    → extend (after_column (suc i) field (type_name o, o) d) fields os
      ≡ extend d (field ∷ fields) (o ∷ os)
extend-cons field fields i d o os = λ k. record {
  ddl =
      snoc_column d.ddl (codes ", ") field.org_name (type_name o)
        (each_behind (codes ", ") (columns fields os)) k;
  col_type = append_assoc d.col_type (o ∷ []) os k;
  first_col_name = d.first_col_name;
}

add_columns-suc :
    (fields : List Field) (i : ℕ) (d : Ddl)
    → add_columns fields (suc i) d ≡ map_option (extend d fields) (types_of fields)
unfolding add_columns named
add_columns-suc [] i d = λ k. some (record {
  ddl = sym (append-nil d.ddl) k;
  col_type = sym (append-nil d.col_type) k;
  first_col_name = d.first_col_name;
})
add_columns-suc (field ∷ fields) i d = elim (Option-cases (oid_of field.field_type)) [
  | inl e ↦ rw (column_type-named field.field_type, named, e, ◌>>=◌) refl
  | inr (o, e) ↦
      rw (column_type-named field.field_type, named, e, ◌>>=◌)
        (add_columns-suc fields (suc i) (after_column (suc i) field (type_name o, o) d)
          ∙ map_option_ext (types_of fields) _ _ (extend-cons field fields i d o)
          ∙ sym (map_map_option (types_of fields) (λ os. o ∷ os) (extend d (field ∷ fields))))
]

assemble :
    (start name type rest end : Text)
    → (start ++ [] ++ name ++ codes " " ++ type) ++ rest ++ end
      ≡ start ++ ((name ++ codes " " ++ type) ++ rest) ++ end
assemble start name type rest end = simp append_assoc refl

-- The statement is the start, the columns with a comma between any two, each the column's name and
-- the name of the type whose number is returned for it, and the end; there is none, and no types
-- are returned, if a column has a type that the switch does not name.
pub fetch_colmum_info-types_of :
    (options : Options) (schemaname : Option Text) (tabname : Text) (fields : List Field)
    (gp : Bool)
    → fetch_colmum_info options schemaname tabname fields gp
      ≡ map_option
          (λ os. (
            os,
            ddl_start options schemaname tabname gp
                ++ join (codes ", ") (columns fields os)
                ++ ddl_end options gp (first_name fields),
          ))
          (types_of fields)
unfolding fetch_colmum_info add_columns named
fetch_colmum_info-types_of options schemaname tabname [] gp =
    rw (append-nil (ddl_start options schemaname tabname gp)) refl
fetch_colmum_info-types_of options schemaname tabname (field ∷ fields) gp =
    let start = ddl_start options schemaname tabname gp in
    elim (Option-cases (oid_of field.field_type)) [
      | inl e ↦ rw (column_type-named field.field_type, named, e, ◌>>=◌) refl
      | inr (o, e) ↦
          rw (column_type-named field.field_type, named, e, ◌>>=◌)
            (rw
              (add_columns-suc fields 0 (
                after_column 0 field (type_name o, o)
                  (record { ddl = start; col_type = []; first_col_name = [] })))
              (elim (Option-cases (types_of fields)) [
                | inl none_ ↦ rw none_ refl
                | inr (os, some_) ↦ rw some_ (
                    ap (λ t. some (o ∷ os, t))
                      (assemble start (field.org_name) (type_name o)
                        (each_behind (codes ", ") (columns fields os))
                        (ddl_end options gp field.org_name)))
              ]))
    ]
