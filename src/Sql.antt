-- ===== src/Sql.antt =====
-- dbsync/utils.c: from a decoded message to the SQL statement that repeats it. A function
-- returns what it appends to the buffer; `none` is a null pointer that is read (`strlen`,
-- `strcmp` or `%s` of NULL), or the exit of the process.
pub mod Choice
pub mod Loops
pub mod Cells
pub mod Equations
pub mod Statements
pub mod Markers
pub mod Texts
pub mod Kinds
pub mod Deletes
pub mod Updates
pub mod Places
pub mod FullRow
use rds_dbsync.Base.{
  ℕ, zero, suc, ◌+◌, ◌-◌, Bool, true, false, ◌&&◌, ◌||◌, not, Option, none, some, List, [], ◌∷◌,
  ◌++◌, Text, codes, str_eq, ltb, ◌==◌, if◌then◌else◌, ◌>>=◌,
}
use rds_dbsync.Message.{
  DecodeTupleData, DecodeMessage, msgkind_begin, msgkind_commit, msgkind_insert, msgkind_update,
  msgkind_delete, rounds,
}
use rds_dbsync.Quote.{Escapes, quote_literal_local}
unfoldable pub use rds_dbsync.Sql.Choice.{
  is_null_cell, is_unchanged_cell, join_loop, checktuple, key_loop, is_key_column, is_live,
  is_where_column, is_set_column, insert_colname, insert_colnames, append_insert_colname, droped,
  change, is_changed_column, rel_text, update_text,
}

module _ (esc : Escapes) where
  pub insert_value : DecodeMessage → DecodeTupleData → ℕ → Option Text
  insert_value msg tuple i =
      if is_null_cell tuple i
      then some (codes "null")
      else if is_unchanged_cell tuple i
      then some (codes "null")
      else quote_literal_local esc (tuple.svalues i) (msg.atttype i)

  pub append_insert_values : DecodeMessage → DecodeTupleData → Option Text
  append_insert_values msg tuple = do
    values ←
        join_loop (codes ", ") (is_live msg) (insert_value msg tuple) (rounds tuple.natt) 0 true
    some (codes "VALUES(" ++ (values ++ codes ");"))

  -- The text that `append_values` appends; it returns `is_null_cell`.
  pub append_values : DecodeMessage → DecodeTupleData → ℕ → Option Text
  append_values msg tuple i = do
    name ← msg.attname i
    literal ←
        if is_null_cell tuple i
        then some (codes "null")
        else quote_literal_local esc (tuple.svalues i) (msg.atttype i)
    some (name ++ (codes "=" ++ literal))

  pub append_delete_where_statement : DecodeMessage → DecodeTupleData → Option Text
  append_delete_where_statement msg tuple = do
    conditions ←
        join_loop (codes " AND ") (is_where_column msg) (append_values msg tuple)
          (rounds tuple.natt) 0 true
    some (codes "WHERE " ++ (conditions ++ codes ";"))

  pub append_update_statement_key_change : DecodeMessage → Option Text
  append_update_statement_key_change msg = do
    conditions ←
        join_loop (codes " AND ") (is_where_column msg) (append_values msg msg.oldtuple)
          (rounds msg.oldtuple.natt) 0 true
    assignments ←
        join_loop (codes " , ") (is_live msg) (append_values msg msg.newtuple)
          (rounds msg.newtuple.natt) 0 true
    some (codes " SET " ++ (assignments ++ (codes " WHERE " ++ (conditions ++ codes ";"))))

  pub append_update_statement_key_not_change : DecodeMessage → Option Text
  append_update_statement_key_not_change msg = do
    conditions ←
        join_loop (codes " AND ") (is_where_column msg) (append_values msg msg.newtuple)
          (rounds msg.newtuple.natt) 0 true
    assignments ←
        join_loop (codes " , ") (is_set_column msg) (append_values msg msg.newtuple)
          (rounds msg.newtuple.natt) 0 true
    some (codes " SET " ++ (assignments ++ (codes " WHERE " ++ (conditions ++ codes ";"))))

  pub append_update_statement_full_row : DecodeMessage → Option Text
  append_update_statement_full_row msg = do
    conditions ←
        join_loop (codes " AND ") (is_live msg) (append_values msg msg.oldtuple)
          (rounds msg.oldtuple.natt) 0 true
    assignments ←
        join_loop (codes " , ") (is_changed_column msg) (append_values msg msg.newtuple)
          (rounds msg.newtuple.natt) 0 true
    some (codes " SET " ++ (assignments ++ (codes " WHERE " ++ (conditions ++ codes ";"))))

  pub append_update_statement : DecodeMessage → Option Text
  append_update_statement msg =
      if msg.k_natt == 0
      then (if not msg.has_key_or_old || msg.oldtuple.natt == 0
          then some []
          else if msg.natt == msg.newtuple.natt && msg.natt == msg.oldtuple.natt
          then update_text msg (append_update_statement_full_row msg)
          else some [])
      else if msg.oldtuple.natt == 0
      then update_text msg (append_update_statement_key_not_change msg)
      else update_text msg (append_update_statement_key_change msg)

  pub insert_statement : DecodeMessage → Option Text
  insert_statement msg = do
    rel ← rel_text msg
    values ← append_insert_values msg msg.newtuple
    some (codes "INSERT INTO " ++ (rel ++ (append_insert_colname msg msg.newtuple ++ values)))

  pub delete_statement : DecodeMessage → Option Text
  delete_statement msg = do
    rel ← rel_text msg
    conditions ← append_delete_where_statement msg msg.oldtuple
    some (codes "DELETE FROM " ++ (rel ++ conditions))

  -- The `switch` of `out_put_tuple_to_sql`; `exit(1)` on an unknown kind.
  pub statement : DecodeMessage → Option Text
  statement msg =
      if msg.kind == msgkind_begin
      then some (codes "begin;")
      else if msg.kind == msgkind_commit
      then some (codes "commit;")
      else if msg.kind == msgkind_insert
      then insert_statement msg
      else if msg.kind == msgkind_update
      then append_update_statement msg
      else if msg.kind == msgkind_delete
      then delete_statement msg
      else none

  -- The return code, and what is appended to the buffer.
  pub out_put_tuple_to_sql : DecodeMessage → Option (ℕ × Text)
  out_put_tuple_to_sql msg =
      if checktuple msg == 0 then (statement msg >>= λ text. some (0, text)) else some (1, [])
