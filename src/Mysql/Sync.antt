-- ===== src/Mysql/Sync.antt =====
-- The threads that copy the tables (`mysql2pgsql_copy_data`) and the entry that starts them
-- (`mysql2pgsql_sync_main`), both of dbsync/mysql2pgsql.c.
pub mod Queue
pub mod Thread
use rds_dbsync.Base.{
  ℕ, zero, suc, ◌+◌, Bool, true, false, Option, none, some, List, [], ◌∷◌, ◌++◌, map, Text, length,
  if◌then◌else◌, ◌>>=◌, map_option,
}
use rds_dbsync.Connections.{History, Server, setup_connection, setup_connection_from_mysql}
use rds_dbsync.Tasks.{TaskQueue}
use rds_dbsync.Mysql.Table.{Task, Env, TableResult, copy_table}

-- `ThreadArg`, with `count` and `complete` of the tasks that the thread took, in their order, and
-- what its target has been asked.
pub record ThreadArg : Type 0 where
  pub count : ℕ
  pub all_ok : Bool
  pub tasks : List (Option ℕ × Bool)
  pub target : History

abbrev or_before : ℕ → Option ℕ → ℕ
or_before before none = before
or_before before (some count) = count

-- What a table leaves of a thread.
abbrev pub after_table : TableResult → ThreadArg → ThreadArg
after_table r t = record {
  count = or_before t.count r.count;
  all_ok = false;
  tasks = t.tasks ++ (r.count, r.complete) ∷ [];
  target = r.history;
}

abbrev pub all_right : ThreadArg → ThreadArg
all_right t = record { count = t.count; all_ok = true; tasks = t.tasks; target = t.target }

module _ (env : Env) where
  -- The loop of a thread over the tasks that it takes, until it takes none.
  unfoldable pub copy_tasks : List Task → ThreadArg → ThreadArg
  copy_tasks [] t = all_right t
  copy_tasks (task ∷ tasks) t =
      let r = copy_table env task t.target in
      let rest = copy_tasks tasks (after_table r t) in if r.exits then after_table r t else rest

  abbrev not_started : History → ThreadArg
  not_started history = record { count = 0; all_ok = false; tasks = []; target = history }

  -- A thread whose connections stand, and one that has none.
  unfoldable pub mysql2pgsql_copy_data : Bool → Bool → List Task → ThreadArg
  mysql2pgsql_copy_data origin_connects target_connects tasks =
      let set_up = setup_connection env.server env.desc_version env.isgp [] in
      let from_mysql = setup_connection_from_mysql env.server set_up.1 in
      let run = copy_tasks tasks (not_started from_mysql.1) in
      if origin_connects then if target_connects then run else not_started [] else not_started []

abbrev task_at : Option Text → Text → Option Text → Task
task_at target_schema relname query = record {
  schemaname = target_schema;
  relname = relname;
  query = query;
}

abbrev next_task : Option Text → Option Text → Option Text → Option (List Task) → Option (List Task)
next_task target_schema none query rest = some []
next_task target_schema (some relname) query rest =
    map_option (λ tasks. task_at target_schema relname query ∷ tasks) rest

-- The tables named in arrays, up to the first NULL: the two loops over `tabnames`. The first
-- argument is the number of cells that may be read; `none` where no NULL is among them.
unfoldable pub tasks_of_arrays :
    ℕ → (ℕ → Option Text) → (ℕ → Option Text) → Option Text → ℕ → Option (List Task)
tasks_of_arrays zero tabnames queries target_schema i = none
tasks_of_arrays (suc cells) tabnames queries target_schema i =
    next_task target_schema (tabnames i) (queries i)
      (tasks_of_arrays cells tabnames queries target_schema (suc i))

-- The tables that the source shows.
unfoldable pub tasks_of_rows : List Text → Option Text → List Task
tasks_of_rows rows target_schema = map (λ relname. task_at target_schema relname none) rows

-- The queue that the threads share.
unfoldable pub start_queue : List Task → TaskQueue Task
start_queue tasks = record { l_task = tasks; ntask = length tasks }

-- The sums behind the threads' end: `s_count`, `t_count` and `have_err`.
pub record Totals : Type 0 where
  pub s_count : ℕ
  pub t_count : ℕ
  pub have_err : Bool

unfoldable pub count_threads : List ThreadArg → ℕ × Bool
count_threads [] = (0, false)
count_threads (t ∷ ts) =
    let (s_count, have_err) = count_threads ts in
    if t.all_ok then (t.count + s_count, have_err) else (s_count, true)

abbrev or_zero : Option ℕ → ℕ
or_zero none = 0
or_zero (some count) = count

unfoldable pub count_tasks : List (Option ℕ × Bool) → ℕ
count_tasks [] = 0
count_tasks ((count, complete) ∷ tasks) = or_zero count + count_tasks tasks

-- What the connections and the source give the entry: whether they stand, and the tables that the
-- source shows.
pub record Start : Type 0 where
  pub source_connects : Bool
  pub target_connects : Bool
  pub shown_tables : Option (List Text)

-- `tabnames` and `queries`, of so many cells, where a list was loaded.
pub record Lists : Type 0 where
  pub cells : ℕ
  pub tabnames : ℕ → Option Text
  pub queries : ℕ → Option Text

abbrev all_tasks : Start → Option Lists → Option Text → Option (List Task)
all_tasks start none target_schema =
    map_option (λ rows. tasks_of_rows rows target_schema) start.shown_tables
all_tasks start (some l) target_schema =
    tasks_of_arrays l.cells l.tabnames l.queries target_schema 0

-- The queue that the entry starts its threads on; `none` where it returns 1.
unfoldable pub start_sync : Start → Option Lists → Option Text → Option (TaskQueue Task)
start_sync start lists target_schema =
    let queue = map_option start_queue (all_tasks start lists target_schema) in
    if start.source_connects then if start.target_connects then queue else none else none
