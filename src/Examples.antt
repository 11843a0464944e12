-- ===== src/Examples.antt =====
-- A buffer, an escape table, a server, a table and messages, on which the theorems are applied.
mod Buffers
mod Messages
mod Decoding
mod Copying
mod Threads
mod Streaming
mod Listing
mod Migration
mod Receiving
mod Logs
mod Replicating
mod Starting
use rds_dbsync.Base.{
  ℕ, zero, suc, ◌+◌, ◌*◌, ◌/◌, ◌%◌, ◌^◌, ◌<◌, ◌≡◌, refl, Option, none, some, List, [], ◌∷◌, ◌++◌,
  ap, ◌∙◌, Bool, true, false, ◌||◌, arith, Text, codes, length, ltb, if◌then◌else◌, ◌==◌,
}
use rds_dbsync.Quote.{Escapes, quote, backslash}
use rds_dbsync.Plugin.{Server, Relation, Attribute, AttrNumber, user, system, OutputData, Txn}
use rds_dbsync.Wire.{
  Column, live, dropped, Cell, null, unchanged, value, RowMessage, insert, update, delete,
}

abbrev pub escapes : Escapes
escapes = record {
  str_double = λ c e. c == quote || c == backslash;
  escape_string_syntax = b'E';
  str_double_lem = λ c. refl;
  escape_string_syntax_lem = refl;
}

-- A value is its text, a row the list of its values.
abbrev value_at : List (Option Text) → ℕ → Option Text
value_at [] i = none
value_at (v ∷ row) zero = v
value_at (v ∷ row) (suc i) = value_at row i

abbrev pub server : Server Text (List (Option Text))
server = record {
  get_namespace_name = λ oid. some (codes "public");
  quote_identifier = λ name. name;
  format_type_be = λ oid. if oid == 23 then codes "integer" else codes "text";
  type_output = λ oid. some oid;
  output_function_call = λ f datum. datum;
  is_external_ondisk = λ datum. false;
  deform = value_at;
  get_relid_attribute_name = λ relid n. codes "id";
  object_id_attribute_number = 2;
}

abbrev pub items : Relation
items = record {
  relid = 16384;
  relnamespace = 2200;
  relname = codes "items";
  attrs =
      record {
        attname = codes "id";
        atttypid = 23;
        attnum = user 1;
        attisdropped = false;
        is_varlena = false;
      }
      ∷ record {
        attname = codes "name";
        atttypid = 25;
        attnum = user 2;
        attisdropped = false;
        is_varlena = true;
      }
      ∷ [];
  replident_keys = some (user 1 ∷ []);
}

abbrev pub streaming : OutputData
streaming = record {
  client_version = 1;
  client_encoding = some (codes "UTF8");
  output_key_info = true;
  output_column_info = true;
  output_type_as_name = true;
}

abbrev pub columns : List Column
columns = live (codes "id") (codes "integer") ∷ live (codes "name") (codes "text") ∷ []

abbrev pub row : List Cell
row = value (codes "7") ∷ value (codes "it's") ∷ []

abbrev pub old_row : List Cell
old_row = value (codes "6") ∷ null ∷ []

abbrev pub inserted : RowMessage
inserted = record {
  schema = codes "public";
  table = codes "items";
  columns = columns;
  key = none;
  change = insert row;
}

abbrev pub updated : RowMessage
updated = record {
  schema = codes "public";
  table = codes "items";
  columns = columns;
  key = some (codes "id" ∷ []);
  change = update none row;
}

abbrev pub moved : RowMessage
moved = record updated { change = update (some old_row) row }

abbrev pub unkeyed : RowMessage
unkeyed = record updated { key = none }

abbrev pub unkeyed_moved : RowMessage
unkeyed_moved = record unkeyed { change = update (some old_row) row }

abbrev pub deleted : RowMessage
deleted = record updated { change = delete (some old_row) }

abbrev pub txn : Txn
txn = record { final_lsn = 100; end_lsn = 120; commit_time = 5; xid = 9 }
