-- ===== src/Apply/Start.antt =====
-- The start of the apply thread (dbsync/pgsync.c), before its loop: the connections, and the commit
-- that it goes on behind.
use rds_dbsync.Base.{
  ℕ, ◌≤◌, ◌≡◌, refl, ap, Bool, Option, none, some, List, [], ◌∷◌, Text, codes, if◌then◌else◌, ◌>>=◌,
  map_option, All,
}
use rds_dbsync.Connections.{pglogical_connect}
use rds_dbsync.Apply.{begin, Reply, command_ok, QueueRow, ApplyState, Outcome, going, apply_passes}
use rds_dbsync.Apply.Accepted.{run}
use rds_dbsync.Apply.Once.{Batch, tables, all_rows, last_of, Numbered, apply_passes-once}

-- What the query for `apply_id` gives: its rows, with the text of the value, if it is not null;
-- `none` where the query fails.
abbrev pub StatusRows : Type 0
StatusRows = Option (List (Option Text))

module _ (atoll : Text → ℕ) where
  -- `none` is -1.
  unfoldable pub get_apply_status : StatusRows → Option ℕ
  get_apply_status none = none
  get_apply_status (some []) = none
  get_apply_status (some (none ∷ [])) = some 0
  get_apply_status (some (some value ∷ [])) = some (atoll value)
  get_apply_status (some (row ∷ (row' ∷ rows))) = none

  -- The `apply_id` with which the loop starts; `none` where the thread leaves before it.
  unfoldable pub start_apply : (Text → Bool) → Text → Text → StatusRows → Option ℕ
  start_apply connects local desc rows =
      if pglogical_connect connects local (codes "rds_logical_syncapply_reader")
      then (get_apply_status rows >>= λ apply_id.
          if pglogical_connect connects local (codes "rds_logical_syncapply_update_status")
          then (if pglogical_connect connects desc (codes "rds_logical_sync_decoding_apply")
              then some apply_id
              else none)
          else none)
      else none

  -- The variables before the first round.
  abbrev pub first_state : {T : Type 0} → T → ℕ → ApplyState T
  first_state target apply_id = record {
    sqltype = begin;
    n_commit = 0;
    apply_id = apply_id;
    stored = apply_id;
    target = target;
  }

  -- The thread, with what the table holds at each of its rounds; `none` where it leaves before them.
  unfoldable pub apply_thread :
      {T : Type 0}
      → (T → Text → Reply × T)
      → (Text → Bool)
      → Text
      → Text
      → StatusRows
      → T
      → List (List QueueRow)
      → Option (Outcome T)
  apply_thread exec connects local desc rows target ts =
      map_option (λ apply_id. apply_passes exec (first_state target apply_id) ts)
        (start_apply connects local desc rows)

  -- The thread starts behind a commit that it reads from the status, where the rows up to it are
  -- those of the queue, and the target takes every statement. However the rest of the queue is
  -- dealt out to the rounds of its loop, in batches that end in a commit and with ids that grow
  -- from row to row, the loop goes on through all rounds: the target has run each new row once, in
  -- order, and the id of the last commit is stored.
  pub apply_thread-once :
      {T : Type 0} (exec : T → Text → Reply × T) (connects : Text → Bool) (local desc : Text)
      (rows : StatusRows) (target : T) (table : List QueueRow) (bs : List Batch) (apply_id : ℕ)
      → ((target : T) (sql : Text) → (exec target sql).0 ≡ command_ok)
      → start_apply connects local desc rows ≡ some apply_id
      → All (λ row. row.id ≤ apply_id) table
      → Numbered apply_id bs
      → (st : ApplyState T) × (apply_thread exec connects local desc rows target (tables table bs)
          ≡ some (going st))
        × (st.target ≡ run exec target (all_rows bs))
        × (st.stored ≡ last_of apply_id bs)
  unfolding apply_thread
  apply_thread-once exec connects local desc rows target table bs apply_id accepts h old n =
      let (st, e, same, stored) =
        apply_passes-once exec accepts (first_state target apply_id) table bs refl old n in
      (st, rw h (ap some e), same, stored)
