-- ===== src/TableCopy/Thread.antt =====
-- The thread of `copy_table_data` (dbsync/pgsync.c): its connections, and the loop over the tables
-- that it takes. The clock, which is only printed, is left out.
use rds_dbsync.Base.{
  ℕ, ◌+◌, ◌≡◌, Bool, true, false, not, List, [], ◌∷◌, ◌++◌, Text, codes, length, if◌then◌else◌,
}
use rds_dbsync.Connections.{History, pglogical_connect}
use rds_dbsync.TableCopy.{PgTask, PgEnv, PgResult, origin_begun, target_begun, copy_table_data}
use rds_dbsync.TableCopy.Complete.{PgCopied}

-- `ThreadArg`, with what `copy_table_data` leaves of the tasks that it took, in their order, and the
-- connections.
pub record PgThread : Type 0 where
  pub count : ℕ
  pub all_ok : Bool
  pub tasks : List (ℕ × Bool)
  pub at_origin : History
  pub at_target : History

abbrev pub after_turn : PgResult → PgThread → PgThread
after_turn r t = record {
  count = t.count + r.count;
  all_ok = false;
  tasks = t.tasks ++ (r.count, r.complete) ∷ [];
  at_origin = r.at_origin;
  at_target = r.at_target;
}

abbrev pub all_right : PgThread → PgThread
all_right t = record {
  count = t.count;
  all_ok = true;
  tasks = t.tasks;
  at_origin = t.at_origin;
  at_target = t.at_target;
}

abbrev pub no_turn : PgThread
no_turn = record { count = 0; all_ok = false; tasks = []; at_origin = []; at_target = [] }

abbrev pub copy_name : Text
copy_name = codes "rds_logical_sync_copy"

module _ (env : PgEnv) where
  -- The loop over the tasks that the thread takes, until it takes none.
  unfoldable pub copy_turns : List PgTask → PgThread → PgThread
  copy_turns [] t = all_right t
  copy_turns (task ∷ tasks) t =
      let r = copy_table_data env task t.at_origin t.at_target in
      let rest = copy_turns tasks (after_turn r t) in if r.exits then after_turn r t else rest

  -- The thread, with which strings have a server that connects.
  unfoldable pub copy_thread : (Text → Bool) → Text → Text → List PgTask → PgThread
  copy_thread connects src desc tasks =
      let run = copy_turns tasks no_turn in
      if pglogical_connect connects src copy_name
      then (if pglogical_connect connects desc copy_name then run else no_turn)
      else no_turn

-- A turn goes on just if its table is complete.
Consistent : PgResult → Type 0
Consistent r = r.exits ≡ not r.complete

module _ (env : PgEnv) where
  -- Each table, on the connections that the tables before it leave, is copied.
  abbrev pub AllPgCopied : List PgTask → PgThread → PgThread → Type 0
  AllPgCopied [] before after = after ≡ all_right before
  AllPgCopied (task ∷ tasks) before after =
      let r = copy_table_data env task before.at_origin before.at_target in
      PgCopied env task (origin_begun env before.at_origin) (target_begun env before.at_target) r
      × AllPgCopied tasks (after_turn r before) after

  -- The rows of these tables.
  unfoldable pub row_count : List PgTask → ℕ
  row_count [] = 0
  row_count (task ∷ tasks) = length (env.copy_data task).0 + row_count tasks
