-- ===== src/Sql/FullRow.antt =====
-- `append_update_statement_full_row` of dbsync/utils.c: an update of a table without a key, which
-- looks for the whole old row and sets the columns that changed.
use rds_dbsync.Base.{
  ◌<◌, ◌≡◌, refl, sym, true, false, not, ◌&&◌, ◌||◌, ◌==◌, ==_self, ◌++◌, ◌>>=◌, subst, Option,
  some, List, [], arith, Text, codes, length, map_option,
}
use rds_dbsync.Message.{rounds}
use rds_dbsync.Wire.{
  Cell, FitsRow, RowMessage, FitsMessage, FitsOption, message_of, new_row, old_row, update,
}
use rds_dbsync.Sql.{
  append_update_statement_full_row, append_update_statement, out_put_tuple_to_sql, is_live,
}
use rds_dbsync.Sql.Statements.{describes_lem, positive}
use rds_dbsync.Sql.Kinds.{
  key_of, newtuple-update, oldtuple-update, checktuple-update, statement-update, unkeyed_lem,
  update_sql, update_lem, rel_text-message_of, with_code,
}
use rds_dbsync.Quote.{Escapes}
use rds_dbsync.Sql.{is_changed_column, join_loop, append_values}
use rds_dbsync.Sql.Cells.{Describes, is_live_column, is_live_lem}
use rds_dbsync.Sql.Equations.{equations, join_loop-equations}
use rds_dbsync.Sql.Places.{with_rows, set_changed, set_changed_lem}

-- The tests in front of the full row mode.
full_row_mode :
    (m : RowMessage) (old row : List Cell)
    → m.change ≡ update (some old) row
    → length old ≡ length m.columns
    → length row ≡ length m.columns
    → 0 < length old
    → ((not (message_of m).has_key_or_old || (message_of m).oldtuple.natt == 0) ≡ false)
      × (((message_of m).natt == (message_of m).newtuple.natt
            && (message_of m).natt == (message_of m).oldtuple.natt)
          ≡ true)
unfolding message_of
full_row_mode m old row e ho hr pos =
    rw e (positive (length old) pos, rw (ho, hr, ==_self (length m.columns)) refl)

module _ (esc : Escapes) where
  abbrev pub all_conditions : RowMessage → List Cell → Option Text
  all_conditions m old = equations esc (codes " AND ") is_live_column m.columns old

  full_row_lem :
      (m : RowMessage) (old row : List Cell)
      → m.change ≡ update (some old) row
      → FitsMessage m
      → length old ≡ length m.columns
      → length row ≡ length m.columns
      → append_update_statement_full_row esc (message_of m) ≡ (
          all_conditions m old >>= λ where_text. set_changed esc m old row >>= λ set_text.
          some (codes " SET " ++ (set_text ++ (codes " WHERE " ++ (where_text ++ codes ";")))))
  unfolding append_update_statement_full_row
  full_row_lem m old row e fits ho hr =
      let fr : FitsRow row = subst (λ c. FitsOption FitsRow (new_row c)) e fits.new_fits in
      let fo : FitsRow old = subst (λ c. FitsOption FitsRow (old_row c)) e fits.old_fits in
      let d : Describes (message_of m) m.columns (key_of m) = describes_lem m fits in
      let whole : message_of m ≡ with_rows (message_of m) old row = λ i. record (message_of m) {
        newtuple = newtuple-update m (some old) row e i;
        oldtuple = oldtuple-update m old row e i;
      } in
      rw
        (join_loop-equations esc (message_of m) m.columns (key_of m) (message_of m).oldtuple old
          (codes " AND ") (is_live (message_of m)) is_live_column d (oldtuple-update m old row e) fo
          ho (λ i k. is_live_lem (message_of m) m.columns (key_of m) i d) (λ column k. k))
        (rw
          (subst
            (λ w.
              join_loop (codes " , ") (is_changed_column w)
                (append_values esc (message_of m) w.newtuple) (rounds w.newtuple.natt) 0 true
              ≡ set_changed esc m old row)
            (sym whole) (set_changed_lem esc (message_of m) m (key_of m) old row d fo fr ho hr))
          refl)

  -- An update with the old row, of a table without a key, where the message fits the wire and
  -- both rows have a cell for each column and at least one, becomes an UPDATE that sets the live
  -- columns whose value changed in the rows that have all old values; an unchanged cell in a live
  -- column of the old row is a null pointer that is read.
  pub out_put_tuple_to_sql-update_row :
      (m : RowMessage) (old row : List Cell)
      → m.change ≡ update (some old) row
      → FitsMessage m
      → length old ≡ length m.columns
      → length row ≡ length m.columns
      → 0 < length row
      → key_of m ≡ []
      → out_put_tuple_to_sql esc (message_of m)
        ≡ map_option (λ t. (0, t)) (update_sql m (all_conditions m old) (set_changed esc m old row))
  unfolding out_put_tuple_to_sql append_update_statement
  out_put_tuple_to_sql-update_row m old row e fits ho h pos k =
      rw (checktuple-update m (some old) row e h pos, statement-update esc m (some old) row e)
        (rw
          (
            unkeyed_lem m k,
            (full_row_mode m old row e ho h (omega arith)).0,
            (full_row_mode m old row e ho h (omega arith)).1,
          )
          (rw
            (update_lem (message_of m) m (all_conditions m old) (set_changed esc m old row)
              (append_update_statement_full_row esc (message_of m)) (rel_text-message_of m)
              (full_row_lem m old row e fits ho h))
            (with_code (update_sql m (all_conditions m old) (set_changed esc m old row)))))
