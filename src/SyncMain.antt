-- ===== src/SyncMain.antt =====
-- The entry for a PostgreSQL source, `db_sync_main` (dbsync/pgsync.c): when the tables are copied,
-- and when the threads of the decoder start. What the servers answer is an argument.
pub mod Trace
mod Slot
pub mod Order
use rds_dbsync.Base.{
  ℕ, Bool, true, false, not, ◌&&◌, Option, none, some, List, [], ◌∷◌, ◌++◌, Text, codes, leb, ◌==◌,
  if◌then◌else◌,
}
use rds_dbsync.Connections.{origin_begin}

-- What the entry does; of what it only asks for, the tables.
pub data Action : Type 0 where
  ask_origin ask_local : Text → Action
  create_slot : Action
  start_copy : Option Text → List (Text × Text) → Action
  start_receive : Text → Action
  start_apply wait_copy wait_decoders : Action

-- A row of `db_sync_status`.
pub record TaskStatus : Type 0 where
  pub full_start : Option Text
  pub full_end : Option Text
  pub decoder_start : Option Text
  pub apply_id : Option Text

abbrev no_status : TaskStatus
no_status = record { full_start = none; full_end = none; decoder_start = none; apply_id = none }

-- From the rows of the query; `none` where it fails.
unfoldable pub get_task_status : Option (List TaskStatus) → TaskStatus
get_task_status none = no_status
get_task_status (some []) = no_status
get_task_status (some (row ∷ [])) = row
get_task_status (some (row ∷ row' ∷ rows)) = no_status

-- From the number of the slots of that name; `none` where the query fails.
unfoldable pub is_slot_exists : Option ℕ → Bool
is_slot_exists none = false
is_slot_exists (some ntups) = ntups == 1

-- What was done so far, the last action first.
abbrev pub Actions : Type 0
Actions = List Action

abbrev set_status : Bool → Text → Actions → Actions
set_status flag column actions =
    if flag
    then ask_local (codes "UPDATE db_sync_status SET " ++ column ++ codes " = now() WHERE id = 1")
      ∷ actions
    else actions

abbrev set_apply_id : (ℕ → Text) → Option ℕ → Actions → Actions
set_apply_id decimal none actions = actions
set_apply_id decimal (some apply_id) actions =
    ask_local
      (codes "UPDATE db_sync_status SET apply_id = " ++ decimal apply_id ++ codes " WHERE id = 1")
    ∷ actions

-- `none` is a negative `apply_id`; `decimal` is the format of an int64.
unfoldable pub update_task_status : (ℕ → Text) → Bool → Bool → Bool → Option ℕ → Actions → Actions
update_task_status decimal full_start full_end decoder_start apply_id actions =
    set_apply_id decimal apply_id (
      set_status decoder_start (codes "decoder_start") (
        set_status full_end (codes "full_s_end")
          (set_status full_start (codes "full_s_start") actions)))

-- The servers: which connections stand, what they tell of themselves, and what they answer.
pub record Servers : Type 0 where
  pub src_connects : Bool
  pub desc_connects : Bool
  pub local_connects : Bool
  pub src_version : ℕ
  pub src_is_greenplum : Bool
  pub status_rows : Option (List TaskStatus)
  pub slots : Option ℕ
  pub repl_connects : Bool
  pub slot_snapshot : Option Text
  pub begins : Bool
  pub synchronized_snapshot : Option Text
  pub tables : Option (List (Text × Text))
  pub decimal : ℕ → Text

-- The variables of the entry; `th_snapshot` is the snapshot that the copy threads use.
pub record SyncState : Type 0 where
  pub need_full_sync : Bool
  pub replication_sync : Bool
  pub snapshot : Option Text
  pub th_snapshot : Option Text
  pub slot_name : Text
  pub actions : Actions

-- The entry goes on, or returns.
pub data Phase : Type 0 where
  goes : SyncState → Phase
  returns : ℕ → Actions → Phase

abbrev pub then_phase : Phase → (SyncState → Phase) → Phase
then_phase (goes s) f = f s
then_phase (returns code actions) f = returns code actions

abbrev pub extension_slot : Text
extension_slot = codes "rds_logical_sync_slot"

abbrev pub all_db_table_sql : Text
all_db_table_sql =
    codes
      "select n.nspname, c.relname from pg_class c, pg_namespace n where n.oid = c.relnamespace and c.relkind = 'r' and n.nspname not in ('pg_catalog','tiger','tiger_data','topology','postgis','information_schema','gp_toolkit','pg_aoseg','pg_toast') order by c.relpages desc;"

-- The statements that prepare the local database.
abbrev pub local_setup : Actions
local_setup =
    ask_local (codes "insert into db_sync_status (id) values (1);")
    ∷ ask_local (
        codes
          "CREATE TABLE IF NOT EXISTS db_sync_status(id bigserial primary key, full_s_start timestamp DEFAULT NULL, full_s_end timestamp DEFAULT NULL, decoder_start timestamp DEFAULT NULL, apply_id bigint DEFAULT NULL)")
    ∷ ask_local (codes "CREATE TABLE IF NOT EXISTS sync_sqls(id bigserial, sql text)")
    ∷ []

abbrev fresh : Bool → Actions → SyncState
fresh need_full_sync actions = record {
  need_full_sync = need_full_sync;
  replication_sync = false;
  snapshot = none;
  th_snapshot = none;
  slot_name = [];
  actions = actions;
}

-- A task that was started and did not end is not taken up again.
abbrev pub by_status : Option Text → Option Text → Phase
by_status (some full_start) none = returns 1 local_setup
by_status none none = goes (fresh true local_setup)
by_status (some full_start) (some full_end) = goes (fresh false local_setup)
by_status none (some full_end) = goes (fresh false local_setup)

module _ (w : Servers) where
  abbrev pub with_connections : Phase
  with_connections =
      let status = get_task_status w.status_rows in
      let known = by_status status.full_start status.full_end in
      if w.src_connects && w.desc_connects
      then (if w.local_connects then known else goes (fresh true []))
      else returns 1 []

  abbrev pub with_slot_snapshot : Option Text → SyncState → Phase
  with_slot_snapshot none s = returns 1 (create_slot ∷ s.actions)
  with_slot_snapshot (some snapshot) s = goes (record s {
    replication_sync = true;
    snapshot = some snapshot;
    slot_name = extension_slot;
    actions = create_slot ∷ s.actions;
  })

  -- The slot is created where it is missing.
  abbrev pub with_slot : SyncState → Phase
  with_slot s =
      let created =
        if w.repl_connects then with_slot_snapshot w.slot_snapshot s else returns 1 s.actions in
      let found = goes (record s { replication_sync = true; slot_name = extension_slot }) in
      if not w.src_is_greenplum && leb 90400 w.src_version
      then (if is_slot_exists w.slots then found else created)
      else goes s

  -- Only a snapshot that is asked for here is passed on to the threads.
  abbrev pub synchronized : Option Text → SyncState → SyncState
  synchronized (some snapshot) s = s
  synchronized none s =
      if leb 90200 w.src_version
      then record s {
        snapshot = w.synchronized_snapshot;
        th_snapshot = w.synchronized_snapshot;
        actions = ask_origin (codes "SELECT pg_export_snapshot()") ∷ s.actions;
      }
      else s

  abbrev pub with_tables : Option (List (Text × Text)) → SyncState → Phase
  with_tables none s = returns 1 (ask_origin all_db_table_sql ∷ s.actions)
  with_tables (some tables) s = goes (record s {
    actions =
        update_task_status w.decimal true false false none
          (start_copy s.th_snapshot tables ∷ ask_origin all_db_table_sql ∷ s.actions);
  })

  -- The threads that copy are started in a transaction of the origin.
  abbrev pub full_sync : SyncState → Phase
  full_sync s =
      let begun = ask_origin (origin_begin s.snapshot w.src_is_greenplum) ∷ s.actions in
      let copied = with_tables w.tables (synchronized s.snapshot (record s { actions = begun })) in
      if s.need_full_sync then (if w.begins then copied else returns 1 begun) else goes s

  -- The receiving thread starts while the tables are copied.
  abbrev pub receive : SyncState → Phase
  receive s =
      if s.replication_sync
      then goes (record s {
        actions =
            update_task_status w.decimal false false true none
              (start_receive s.slot_name ∷ s.actions);
      })
      else goes s

  abbrev pub wait_full_sync : SyncState → Phase
  wait_full_sync s =
      if s.need_full_sync
      then goes (record s {
        actions = update_task_status w.decimal false true false none (wait_copy ∷ s.actions);
      })
      else goes s

  abbrev pub apply : SyncState → Phase
  apply s =
      returns 0 (if s.replication_sync then wait_decoders ∷ start_apply ∷ s.actions else s.actions)

  unfoldable pub db_sync_main : Phase
  db_sync_main = then_phase with_connections (λ s1. then_phase (with_slot s1) (λ s2.
      then_phase (full_sync s2)
        (λ s3. then_phase (receive s3) (λ s4. then_phase (wait_full_sync s4) apply))))
