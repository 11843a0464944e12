-- ===== src/TableCopy.antt =====
-- A table of a PostgreSQL source: a turn of `copy_table_data` (dbsync/pgsync.c), from the COPY of the
-- origin to the COPY of the target.
pub mod Complete
pub mod Thread
use rds_dbsync.Base.{
  ℕ, suc, ◌+◌, Bool, true, false, Option, List, [], ◌∷◌, ◌++◌, Text, codes, if◌then◌else◌,
}
use rds_dbsync.Connections.{
  execute, put_copy_data, put_copy_end, get_result, History, Server, issue, start_copy_origin_tx,
  start_copy_target_tx, finish_copy_origin_tx, finish_copy_target_tx,
}

-- `schemaname` and `relname` of `Task_hd`.
pub record PgTask : Type 0 where
  pub schemaname : Text
  pub relname : Text

-- The two servers, how libpq writes an identifier, what `Thread_hd` holds, and the data that the
-- origin copies out, with whether they end properly.
pub record PgEnv : Type 0 where
  pub origin : Server
  pub target : Server
  pub escape_identifier : Text → Text
  pub snapshot : Option Text
  pub src_version : ℕ
  pub desc_version : ℕ
  pub desc_is_greenplum : Bool
  pub copy_data : PgTask → List Text × Bool

-- Whether the thread goes to its exit, `complete`, the rows by which the counts have grown, and
-- the connections.
pub record PgResult : Type 0 where
  pub exits : Bool
  pub complete : Bool
  pub count : ℕ
  pub at_origin : History
  pub at_target : History

abbrev pub pg_exit : ℕ → History → History → PgResult
pg_exit count at_origin at_target = record {
  exits = true;
  complete = false;
  count = count;
  at_origin = at_origin;
  at_target = at_target;
}

abbrev pub pg_done : ℕ → History → History → PgResult
pg_done count at_origin at_target = record {
  exits = false;
  complete = true;
  count = count;
  at_origin = at_origin;
  at_target = at_target;
}

-- The loop over `PQgetCopyData`: whether all was put, the rows that are counted, and the target.
abbrev pub and_put : Bool × History → (History → Bool × ℕ × History) → Bool × ℕ × History
and_put (true, history) f = f history
and_put (false, history) f = (false, 0, history)

abbrev pub counted : Bool × ℕ × History → Bool × ℕ × History
counted (ok, count, history) = (ok, suc count, history)

unfoldable pub put_rows : Server → List Text → History → Bool × ℕ × History
put_rows target [] history = (true, 0, history)
put_rows target (row ∷ rows) history =
    and_put (issue target (put_copy_data row) history) (λ h. counted (put_rows target rows h))

module _ (env : PgEnv) where
  abbrev table_text : PgTask → Text
  table_text task =
      env.escape_identifier task.schemaname ++ codes "." ++ env.escape_identifier task.relname

  abbrev pub copy_to : PgTask → Text
  copy_to task = codes "COPY " ++ table_text task ++ codes " TO stdout"

  abbrev pub copy_from : PgTask → Text
  copy_from task = codes "COPY " ++ table_text task ++ codes " FROM stdin"

  -- `goto exit` where a call at the target does not have the status asked for.
  abbrev pub at_target_or_exit : ℕ → History → Bool × History → (History → PgResult) → PgResult
  at_target_or_exit count origin (true, history) f = f history
  at_target_or_exit count origin (false, history) f = pg_exit count origin history

  -- Both transactions end, and their results are not looked at.
  abbrev pub pg_finish : ℕ → History → History → PgResult
  pg_finish count at_origin at_target =
      at_target_or_exit count at_origin (issue env.target put_copy_end at_target) (λ h.
        at_target_or_exit count at_origin (issue env.target get_result h) (λ h'.
          pg_done count (finish_copy_origin_tx env.origin at_origin).1
            (finish_copy_target_tx env.target h').1))

  -- What follows the loop: the data must have ended properly.
  abbrev pub behind_rows : Bool → History → Bool × ℕ × History → PgResult
  behind_rows proper at_origin (false, count, at_target) = pg_exit count at_origin at_target
  behind_rows true at_origin (true, count, at_target) = pg_finish count at_origin at_target
  behind_rows false at_origin (true, count, at_target) = pg_exit count at_origin at_target

  abbrev pub copy_rows : PgTask → History → History → PgResult
  copy_rows task at_origin at_target =
      at_target_or_exit 0 at_origin (issue env.target (execute (copy_from task)) at_target) (λ h.
        behind_rows (env.copy_data task).1 at_origin (put_rows env.target (env.copy_data task).0 h))

  abbrev pub behind_copy_to : PgTask → Bool × History → History → PgResult
  behind_copy_to task (true, at_origin) at_target = copy_rows task at_origin at_target
  behind_copy_to task (false, at_origin) at_target = pg_exit 0 at_origin at_target

  -- Both transactions; whether they began is not looked at.
  abbrev pub origin_begun : History → History
  origin_begun at_origin =
      (start_copy_origin_tx env.origin env.snapshot env.src_version env.desc_is_greenplum
        at_origin).1

  abbrev pub target_begun : History → History
  target_begun at_target =
      (start_copy_target_tx env.target env.desc_version env.desc_is_greenplum at_target).1

  unfoldable pub copy_table_data : PgTask → History → History → PgResult
  copy_table_data task at_origin at_target =
      behind_copy_to task (issue env.origin (execute (copy_to task)) (origin_begun at_origin))
        (target_begun at_target)
