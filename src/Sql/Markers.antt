-- ===== src/Sql/Markers.antt =====
-- `out_put_tuple_to_sql` of dbsync/utils.c on the messages that begin and end a transaction.
use rds_dbsync.Base.{◌≡◌, refl, some, codes}
use rds_dbsync.Message.{DecodeMessage, msgkind_begin, msgkind_commit}
use rds_dbsync.Quote.{Escapes}
use rds_dbsync.Sql.{out_put_tuple_to_sql, statement, checktuple}

module _ (esc : Escapes) (msg : DecodeMessage) where
  pub out_put_tuple_to_sql-begin :
      msg.kind ≡ msgkind_begin → out_put_tuple_to_sql esc msg ≡ some (0, codes "begin;")
  unfolding out_put_tuple_to_sql statement checktuple
  out_put_tuple_to_sql-begin h = rw h refl

  pub out_put_tuple_to_sql-commit :
      msg.kind ≡ msgkind_commit → out_put_tuple_to_sql esc msg ≡ some (0, codes "commit;")
  unfolding out_put_tuple_to_sql statement checktuple
  out_put_tuple_to_sql-commit h = rw h refl
