-- ===== src/Examples/Threads.antt =====
-- The theorems on the apply thread and on the task queue, applied to examples.
use rds_dbsync.Base.{
  ℕ, ◌≡◌, ◌<◌, ◌≤◌, arith, refl, some, List, [], ◌∷◌, ◌++◌, Text, codes, str_eq, if◌then◌else◌,
}
use rds_dbsync.Apply
use rds_dbsync.Apply.{
  begin, Reply, command_ok, failed, QueueRow, ApplyState, going, apply_pass, apply_rows, apply_row,
  on_reply, on_error, next_type, count_commit, end_of_cursor, start_pass,
}
use rds_dbsync.Apply.Unstored.{commits_behind, apply_rows-unstored}
use rds_dbsync.Apply.Effects.{last_commit, apply_pass-last_commit}
use rds_dbsync.Tasks.{TaskQueue, take_task, Run, started, took, Shares, Run-Shares}

-- A target that keeps the statements it took, and refuses one as a duplicate.
abbrev exec : List Text → Text → Reply × List Text
exec target sql =
    if str_eq sql (codes "dup;")
    then (failed (some 23505), target)
    else (command_ok, target ++ sql ∷ [])

abbrev rows : List QueueRow
rows =
    record { id = 4; sql = codes "begin;" }
    ∷ record { id = 5; sql = codes "dup;" }
    ∷ record { id = 6; sql = codes "commit;" }
    ∷ []

abbrev idle : ApplyState (List Text)
idle = record { sqltype = begin; n_commit = 0; apply_id = 3; stored = 3; target = [] }

abbrev after : ApplyState (List Text)
after = record {
  sqltype = Apply.commit;
  n_commit = 0;
  apply_id = 6;
  stored = 6;
  target = codes "begin;" ∷ codes "END" ∷ codes "BEGIN" ∷ codes "commit;" ∷ [];
}

apply_pass-last_commit_example :
    (after.stored ≡ last_commit 3 rows) × (after.apply_id ≡ last_commit 3 rows)
unfolding apply_pass apply_rows apply_row on_reply on_error next_type count_commit end_of_cursor
    start_pass str_eq
apply_pass-last_commit_example = apply_pass-last_commit exec idle after rows refl refl

-- Behind the rows, before the end of the cursor.
abbrev behind_rows : ApplyState (List Text)
behind_rows = record after { n_commit = 1; stored = 3 }

apply_rows-unstored_example : (commits_behind 3 rows < 5) × (3 ≤ 3)
unfolding apply_rows apply_row on_reply on_error next_type count_commit start_pass str_eq
apply_rows-unstored_example = apply_rows-unstored exec idle behind_rows rows refl (omega arith) refl

abbrev takes_all : List Text → Text → Reply × List Text
takes_all target sql = (command_ok, target ++ sql ∷ [])

abbrev two_tables : TaskQueue Text
two_tables = record { l_task = codes "items" ∷ codes "orders" ∷ []; ntask = 2 }

abbrev no_tables : TaskQueue Text
no_tables = record { l_task = []; ntask = 0 }

abbrev both : List (ℕ × Text)
both = (1, codes "items") ∷ (0, codes "orders") ∷ []

both-Run : Run two_tables no_tables both
unfolding take_task
both-Run = took (took started 1 refl) 0 refl

Run-Shares_example : Shares two_tables no_tables both
Run-Shares_example = Run-Shares refl both-Run
