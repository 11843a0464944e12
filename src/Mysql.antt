-- ===== src/Mysql.antt =====
-- A MySQL table as a target table: `fetch_colmum_info` (dbsync/mysql2pgsql.c). What the MySQL
-- library tells of a result is an argument.
pub mod Columns
pub mod Connect
pub mod Copy
pub mod Chunks
pub mod Whole
pub mod Lines
pub mod Table
pub mod Sync
pub mod Program
use rds_dbsync.Base.{
  ℕ, zero, suc, ◌+◌, Bool, true, false, not, Option, none, some, List, [], ◌∷◌, ◌++◌, Text, codes,
  if◌then◌else◌, ◌>>=◌, map_option,
}
use rds_dbsync.Quote.{
  TypeOid, text, timestamptz, timestamp, int2, int4, int8, float4, float8, numeric,
}

-- `enum_field_types` of MySQL, as far as the switch names it.
pub data FieldType : Type 0 where
  mysql_type_varchar mysql_type_var_string mysql_type_string mysql_type_bit mysql_type_blob
        mysql_type_long_blob mysql_type_timestamp mysql_type_date mysql_type_time
        mysql_type_datetime mysql_type_year mysql_type_newdate mysql_type_short mysql_type_tiny
        mysql_type_long mysql_type_longlong mysql_type_float mysql_type_double mysql_type_decimal
        mysql_type_newdecimal mysql_type_int24 :
      FieldType
  other : ℕ → FieldType

-- `MYSQL_FIELD`.
pub record Field : Type 0 where
  pub org_name : Text
  pub field_type : FieldType

-- The options of the program that the MySQL side reads.
pub record Options : Type 0 where
  pub get_ddl_only : Bool
  pub simple_wo_part : Bool
  pub first_col_as_dist_key : Bool
  pub buffer_size : ℕ

-- The switch: the type's name in the statement, and `col_type[i]`; `none` for the default.
abbrev pub column_type : FieldType → Option (Text × TypeOid)
column_type mysql_type_varchar = some (codes "text", text)
column_type mysql_type_var_string = some (codes "text", text)
column_type mysql_type_string = some (codes "text", text)
column_type mysql_type_bit = some (codes "text", text)
column_type mysql_type_blob = some (codes "text", text)
column_type mysql_type_long_blob = some (codes "text", text)
column_type mysql_type_timestamp = some (codes "timestamptz", timestamptz)
column_type mysql_type_date = some (codes "timestamp", timestamp)
column_type mysql_type_time = some (codes "timestamp", timestamp)
column_type mysql_type_datetime = some (codes "timestamp", timestamp)
column_type mysql_type_year = some (codes "timestamp", timestamp)
column_type mysql_type_newdate = some (codes "timestamp", timestamp)
column_type mysql_type_short = some (codes "int2", int2)
column_type mysql_type_tiny = some (codes "int4", int4)
column_type mysql_type_long = some (codes "int4", int4)
column_type mysql_type_longlong = some (codes "int8", int8)
column_type mysql_type_float = some (codes "float4", float4)
column_type mysql_type_double = some (codes "float8", float8)
column_type mysql_type_decimal = some (codes "numeric", numeric)
column_type mysql_type_newdecimal = some (codes "numeric", numeric)
column_type mysql_type_int24 = some (codes "int4", int4)
column_type (other n) = none

-- The statement so far and `col_type`, whose first cells are the list.
pub record Ddl : Type 0 where
  pub ddl : Text
  pub col_type : List TypeOid
  pub first_col_name : Text

abbrev separator : ℕ → Text
separator zero = []
separator (suc i) = codes ", "

abbrev first_col : ℕ → Text → Text → Text
first_col zero org_name first_col_name = org_name
first_col (suc i) org_name first_col_name = first_col_name

abbrev pub after_column : ℕ → Field → Text × TypeOid → Ddl → Ddl
after_column i field (name, type_oid) d = record {
  ddl = d.ddl ++ separator i ++ field.org_name ++ codes " " ++ name;
  col_type = d.col_type ++ type_oid ∷ [];
  first_col_name = first_col i field.org_name d.first_col_name;
}

-- One turn of the loop over the columns.
abbrev add_column : ℕ → Field → Ddl → Option Ddl
add_column i field d =
    column_type field.field_type >>= λ column. some (after_column i field column d)

unfoldable pub add_columns : List Field → ℕ → Ddl → Option Ddl
add_columns [] i d = some d
add_columns (field ∷ fields) i d = add_column i field d >>= add_columns fields (suc i)

abbrev pub schema_prefix : Option Text → Text
schema_prefix none = []
schema_prefix (some schema) = schema ++ codes "."

-- What stands before the first column.
abbrev pub ddl_start : Options → Option Text → Text → Bool → Text
ddl_start options schemaname tabname is_target_gp =
    (if options.get_ddl_only then [] else codes "-- Reference DDL to create the target table:\n")
    ++ codes "CREATE TABLE "
    ++ (if is_target_gp then [] else codes "IF NOT EXISTS ")
    ++ schema_prefix schemaname
    ++ tabname
    ++ codes " ("

-- What stands behind the last column.
abbrev pub ddl_end : Options → Bool → Text → Text
ddl_end options is_target_gp first_col_name =
    if is_target_gp
    then codes
        ") with (APPENDONLY=true, ORIENTATION=column, COMPRESSTYPE=zlib, COMPRESSLEVEL=1, BLOCKSIZE=1048576, OIDS=false) DISTRIBUTED BY ("
      ++ (if options.first_col_as_dist_key then first_col_name else codes "<distribution key>")
      ++ codes ")"
      ++ (if options.simple_wo_part
          then []
          else codes
              " PARTITION BY RANGE (<partition key>) (START (date '<YYYY-MM-DD>') INCLUSIVE END (date '<YYYY-MM-DD>') EXCLUSIVE EVERY (INTERVAL '<1 month>' ))")
    else codes ")"

-- The result `col_type`, and the statement that is printed; `none` where the function returns
-- NULL and prints none.
unfoldable pub fetch_colmum_info :
    Options → Option Text → Text → List Field → Bool → Option (List TypeOid × Text)
fetch_colmum_info options schemaname tabname fields is_target_gp =
    add_columns fields 0 (record {
      ddl = ddl_start options schemaname tabname is_target_gp;
      col_type = [];
      first_col_name = [];
    })
    >>= λ d. some (d.col_type, d.ddl ++ ddl_end options is_target_gp d.first_col_name)
