-- ===== src/Sql/Updates.antt =====
-- The update statements of dbsync/utils.c with a key, for a message that stands for a row
-- message.
use rds_dbsync.Base.{
  ◌<◌, ◌≡◌, refl, Option, none, some, List, [], ◌++◌, arith, Text, codes, length, ◌>>=◌, map_option,
  subst,
}
use rds_dbsync.Wire.{
  Cell, RowMessage, message_of, tuple_of, update, FitsMessage, FitsRow, FitsOption, new_row,
  old_row,
}
use rds_dbsync.Quote.{Escapes}
use rds_dbsync.Sql.{
  append_update_statement, append_update_statement_key_change,
  append_update_statement_key_not_change, is_set_column, is_live, out_put_tuple_to_sql,
}
use rds_dbsync.Sql.Cells.{is_live_column, in_set, is_live_lem, is_set_column_lem}
use rds_dbsync.Sql.Equations.{equations, join_loop-equations, in_set-is_live}
use rds_dbsync.Sql.Statements.{describes_lem}
use rds_dbsync.Sql.Kinds.{
  key_of, with_code, newtuple-update, checktuple-update, keyed_lem, no_old, unkeyed_lem, no_row,
  oldtuple-update, with_old, conditions, update_sql, conditions_lem, statement-update,
  rel_text-message_of, update_lem,
}

module _ (esc : Escapes) where
  abbrev pub set_keyed : RowMessage → List Cell → Option Text
  set_keyed m row = equations esc (codes " , ") (in_set (key_of m)) m.columns row

  key_not_change_lem :
      (m : RowMessage) (row : List Cell)
      → m.change ≡ update none row
      → FitsMessage m
      → length row ≡ length m.columns
      → append_update_statement_key_not_change esc (message_of m) ≡ (
          conditions esc m row >>= λ where_text. set_keyed m row >>= λ set_text.
          some (codes " SET " ++ (set_text ++ (codes " WHERE " ++ (where_text ++ codes ";")))))
  unfolding append_update_statement_key_not_change
  key_not_change_lem m row e fits h =
      let fr : FitsRow row = subst (λ c. FitsOption FitsRow (new_row c)) e fits.new_fits in
      let new : (message_of m).newtuple ≡ tuple_of row = newtuple-update m none row e in
      rw (conditions_lem esc m (message_of m).newtuple row fits new fr h) (
        rw
          (join_loop-equations esc (message_of m) m.columns (key_of m) (message_of m).newtuple row
            (codes " , ") (is_set_column (message_of m)) (in_set (key_of m)) (describes_lem m fits)
            new fr h
            (λ i k. is_set_column_lem (message_of m) m.columns (key_of m) i (describes_lem m fits))
            (in_set-is_live (key_of m)))
          refl)

  -- An update without an old row, of a table with a key, where the message fits the wire and the
  -- row has a cell for each column and at least one, becomes an UPDATE that sets every live
  -- column outside the key to its new value in the row whose key is the new one; an unchanged
  -- cell in a live column is a null pointer that is read.
  pub out_put_tuple_to_sql-update_keyed :
      (m : RowMessage) (row : List Cell)
      → m.change ≡ update none row
      → FitsMessage m
      → length row ≡ length m.columns
      → 0 < length row
      → 0 < length (key_of m)
      → out_put_tuple_to_sql esc (message_of m)
        ≡ map_option (λ t. (0, t)) (update_sql m (conditions esc m row) (set_keyed m row))
  unfolding out_put_tuple_to_sql append_update_statement
  out_put_tuple_to_sql-update_keyed m row e fits h pos keyed =
      rw (checktuple-update m none row e h pos, statement-update esc m none row e)
        (rw (keyed_lem m keyed, no_old m row e)
          (rw
            (update_lem (message_of m) m (conditions esc m row) (set_keyed m row)
              (append_update_statement_key_not_change esc (message_of m)) (rel_text-message_of m)
              (key_not_change_lem m row e fits h))
            (with_code (update_sql m (conditions esc m row) (set_keyed m row)))))

  abbrev pub set_all : RowMessage → List Cell → Option Text
  set_all m row = equations esc (codes " , ") is_live_column m.columns row

  key_change_lem :
      (m : RowMessage) (old row : List Cell)
      → m.change ≡ update (some old) row
      → FitsMessage m
      → length old ≡ length m.columns
      → length row ≡ length m.columns
      → append_update_statement_key_change esc (message_of m) ≡ (
          conditions esc m old >>= λ where_text. set_all m row >>= λ set_text.
          some (codes " SET " ++ (set_text ++ (codes " WHERE " ++ (where_text ++ codes ";")))))
  unfolding append_update_statement_key_change
  key_change_lem m old row e fits ho h =
      let fr : FitsRow row = subst (λ c. FitsOption FitsRow (new_row c)) e fits.new_fits in
      let fo : FitsRow old = subst (λ c. FitsOption FitsRow (old_row c)) e fits.old_fits in
      rw (conditions_lem esc m (message_of m).oldtuple old fits (oldtuple-update m old row e) fo ho)
        (rw
          (join_loop-equations esc (message_of m) m.columns (key_of m) (message_of m).newtuple row
            (codes " , ") (is_live (message_of m)) is_live_column (describes_lem m fits)
            (newtuple-update m (some old) row e) fr h
            (λ i k. is_live_lem (message_of m) m.columns (key_of m) i (describes_lem m fits))
            (λ column k. k))
          refl)

  -- An update with the old row, of a table with a key, where the message fits the wire and both
  -- rows have a cell for each column and at least one, becomes an UPDATE that sets every live
  -- column to its new value in the row that has the old key; an unchanged cell in a column that
  -- is written is a null pointer that is read.
  pub out_put_tuple_to_sql-update_old :
      (m : RowMessage) (old row : List Cell)
      → m.change ≡ update (some old) row
      → FitsMessage m
      → length old ≡ length m.columns
      → length row ≡ length m.columns
      → 0 < length row
      → 0 < length (key_of m)
      → out_put_tuple_to_sql esc (message_of m)
        ≡ map_option (λ t. (0, t)) (update_sql m (conditions esc m old) (set_all m row))
  unfolding out_put_tuple_to_sql append_update_statement
  out_put_tuple_to_sql-update_old m old row e fits ho h pos keyed =
      rw (checktuple-update m (some old) row e h pos, statement-update esc m (some old) row e)
        (rw (keyed_lem m keyed, with_old m old row e (omega arith))
          (rw
            (update_lem (message_of m) m (conditions esc m old) (set_all m row)
              (append_update_statement_key_change esc (message_of m)) (rel_text-message_of m)
              (key_change_lem m old row e fits ho h))
            (with_code (update_sql m (conditions esc m old) (set_all m row)))))

  -- An update without an old row, of a table without a key, whose row has a cell for each column
  -- and at least one, is lost: the answer is 0, the code of a success, and nothing is written.
  pub out_put_tuple_to_sql-update_lost :
      (m : RowMessage) (row : List Cell)
      → m.change ≡ update none row
      → length row ≡ length m.columns
      → 0 < length row
      → key_of m ≡ []
      → out_put_tuple_to_sql esc (message_of m) ≡ some (0, [])
  unfolding out_put_tuple_to_sql append_update_statement
  out_put_tuple_to_sql-update_lost m row e h pos k =
      rw (checktuple-update m none row e h pos, statement-update esc m none row e)
        (rw (unkeyed_lem m k, no_row m row e) refl)
