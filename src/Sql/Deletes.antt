-- ===== src/Sql/Deletes.antt =====
-- The delete statement of dbsync/utils.c, for a message that stands for a row message.
use rds_dbsync.Base.{
  ◌<◌, ◌≡◌, true, Option, some, List, ◌++◌, Text, codes, length, ◌>>=◌, map_option, subst,
  bind_bind,
}
use rds_dbsync.Message.{rounds}
use rds_dbsync.Wire.{
  Cell, RowMessage, message_of, delete, FitsMessage, FitsRow, FitsOption, old_row,
}
use rds_dbsync.Quote.{Escapes}
use rds_dbsync.Sql.{
  join_loop, append_values, append_delete_where_statement, delete_statement, is_where_column,
  out_put_tuple_to_sql,
}
use rds_dbsync.Sql.Statements.{relation_text}
use rds_dbsync.Sql.Kinds.{
  with_code, conditions, conditions_lem, checktuple-delete, statement-delete, oldtuple-delete,
  rel_text-message_of,
}

module _ (esc : Escapes) where
  abbrev pub delete_sql : RowMessage → List Cell → Option Text
  delete_sql m row = conditions esc m row >>= λ where_text.
      some
        (codes "DELETE FROM " ++ (relation_text m ++ (codes "WHERE " ++ (where_text ++ codes ";"))))

  delete_statement_lem :
      (m : RowMessage) (old : List Cell) (c : Option Text)
      → join_loop
          (codes " AND ")
          (is_where_column (message_of m))
          (append_values esc (message_of m) (message_of m).oldtuple)
          (rounds (message_of m).oldtuple.natt)
          0
          true
        ≡ c
      → delete_statement esc (message_of m) ≡ (
          c >>= λ where_text. some (
            codes "DELETE FROM "
            ++ (relation_text m ++ (codes "WHERE " ++ (where_text ++ codes ";")))))
  unfolding delete_statement append_delete_where_statement
  delete_statement_lem m old c h =
      rw (rel_text-message_of m, ◌>>=◌)
        (rw h (
          bind_bind c (λ t. some (codes "WHERE " ++ (t ++ codes ";")))
            (λ t. some (codes "DELETE FROM " ++ (relation_text m ++ t)))))

  -- A delete with the old row, where the message fits the wire and the row has a cell for each
  -- column and at least one, becomes a DELETE with a condition for each column of the key, or for
  -- each live column where there is no key; an unchanged cell there is a null pointer that is
  -- read.
  pub out_put_tuple_to_sql-delete :
      (m : RowMessage) (old : List Cell)
      → m.change ≡ delete (some old)
      → FitsMessage m
      → length old ≡ length m.columns
      → 0 < length old
      → out_put_tuple_to_sql esc (message_of m) ≡ map_option (λ t. (0, t)) (delete_sql m old)
  unfolding out_put_tuple_to_sql
  out_put_tuple_to_sql-delete m old e fits h pos =
      let fr : FitsRow old = subst (λ c. FitsOption FitsRow (old_row c)) e fits.old_fits in
      rw (checktuple-delete m old e pos, statement-delete esc m old e)
        (rw
          (delete_statement_lem m old (conditions esc m old)
            (conditions_lem esc m (message_of m).oldtuple old fits (oldtuple-delete m old e) fr h))
          (with_code (delete_sql m old)))
