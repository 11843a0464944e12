-- ===== src/Examples/Copying.antt =====
-- The theorems on literals, statements, the apply thread and the task queue, applied to examples.
use rds_dbsync.Base.{◌≡◌, refl, some, [], ◌∷◌, ◌++◌, arith, codes, map_option, if◌then◌else◌}
use rds_dbsync.Wire.{message_of}
use rds_dbsync.Quote.{quote_literal_internal, has_backslash}
use rds_dbsync.Quote.Literal
use rds_dbsync.Quote.Csv
use rds_dbsync.Sql.{out_put_tuple_to_sql}
use rds_dbsync.Sql.Statements.{insert_sql, out_put_tuple_to_sql-insert}
use rds_dbsync.Sql.Kinds.{conditions, update_sql}
use rds_dbsync.Sql.Deletes.{delete_sql, out_put_tuple_to_sql-delete}
use rds_dbsync.Sql.Places.{set_changed}
use rds_dbsync.Sql.FullRow.{all_conditions, out_put_tuple_to_sql-update_row}
use rds_dbsync.Sql.Updates.{
  set_keyed, set_all, out_put_tuple_to_sql-update_keyed, out_put_tuple_to_sql-update_old,
  out_put_tuple_to_sql-update_lost,
}
use rds_dbsync.Examples.{
  escapes, row, old_row, inserted, updated, moved, unkeyed, unkeyed_moved, deleted,
}
use rds_dbsync.Examples.Messages.{
  inserted-FitsMessage, updated-FitsMessage, moved-FitsMessage, deleted-FitsMessage,
  unkeyed_moved-FitsMessage,
}

sql_literal-quote_literal_internal_example :
    Literal.sql_literal (quote_literal_internal escapes (codes "it's \\ here") ++ codes ", 7")
    ≡ some (codes "it's \\ here", codes ", 7")
sql_literal-quote_literal_internal_example =
    Literal.sql_literal-quote_literal_internal escapes (codes "it's \\ here") (codes ", 7") refl

csv_field-quote_literal_internal_example :
    Csv.csv_field Csv.plain (quote_literal_internal escapes (codes "a\\b") ++ codes "|7") ≡ (
      (if has_backslash (codes "a\\b")
          then b'E' ∷ Csv.double_backslashes (codes "a\\b")
          else codes "a\\b"),
      codes "|7",
    )
csv_field-quote_literal_internal_example =
    Csv.csv_field-quote_literal_internal escapes (codes "a\\b") (codes "|7") refl

out_put_tuple_to_sql-insert_example :
    out_put_tuple_to_sql escapes (message_of inserted) ≡ some (0, insert_sql escapes inserted row)
out_put_tuple_to_sql-insert_example =
    out_put_tuple_to_sql-insert escapes inserted row refl inserted-FitsMessage refl (omega arith)

out_put_tuple_to_sql-update_keyed_example :
    out_put_tuple_to_sql escapes (message_of updated)
    ≡ map_option
        (λ t. (0, t))
        (update_sql updated (conditions escapes updated row) (set_keyed escapes updated row))
out_put_tuple_to_sql-update_keyed_example =
    out_put_tuple_to_sql-update_keyed escapes updated row refl updated-FitsMessage refl
      (omega arith) (omega arith)

out_put_tuple_to_sql-update_old_example :
    out_put_tuple_to_sql escapes (message_of moved)
    ≡ map_option
        (λ t. (0, t))
        (update_sql moved (conditions escapes moved old_row) (set_all escapes moved row))
out_put_tuple_to_sql-update_old_example =
    out_put_tuple_to_sql-update_old escapes moved old_row row refl moved-FitsMessage refl refl
      (omega arith) (omega arith)

out_put_tuple_to_sql-update_lost_example :
    out_put_tuple_to_sql escapes (message_of unkeyed) ≡ some (0, [])
out_put_tuple_to_sql-update_lost_example =
    out_put_tuple_to_sql-update_lost escapes unkeyed row refl refl (omega arith) refl

out_put_tuple_to_sql-delete_example :
    out_put_tuple_to_sql escapes (message_of deleted)
    ≡ map_option (λ t. (0, t)) (delete_sql escapes deleted old_row)
out_put_tuple_to_sql-delete_example =
    out_put_tuple_to_sql-delete escapes deleted old_row refl deleted-FitsMessage refl (omega arith)

out_put_tuple_to_sql-update_row_example :
    out_put_tuple_to_sql escapes (message_of unkeyed_moved)
    ≡ map_option
        (λ t. (0, t))
        (update_sql unkeyed_moved
          (all_conditions escapes unkeyed_moved old_row)
          (set_changed escapes unkeyed_moved old_row row))
out_put_tuple_to_sql-update_row_example =
    out_put_tuple_to_sql-update_row escapes unkeyed_moved old_row row refl unkeyed_moved-FitsMessage
      refl refl (omega arith) refl
