-- ===== src/Apply.antt =====
-- dbsync/pgsync.c: the thread that applies the decoded statements of the local queue to the
-- target (`logical_decoding_apply_thread`), and `update_task_status`, with which it stores how
-- far it got. The target is a parameter: what it answers to a statement, and how that changes
-- it. The local database is taken to answer. `time_to_abort` may end a pass between two rows,
-- which is a run of `apply_rows` on a prefix of the rows.
pub mod Progress
pub mod Effects
pub mod Accepted
pub mod Rising
pub mod Unstored
pub mod Once
pub mod Start
use rds_dbsync.Base.{
  ℕ, ◌+◌, ◌≡◌, Bool, true, false, ◌&&◌, Option, none, some, List, [], ◌∷◌, Text, codes, str_eq, ltb,
  leb, ◌==◌, if◌then◌else◌,
}

pub data SqlType : Type 0 where
  begin commit first_statment other_statment : SqlType

-- PGRES_COMMAND_OK, or an error with its SQLSTATE as a number, `none` if it has no SQLSTATE.
pub data Reply : Type 0 where
  command_ok : Reply
  failed : Option ℕ → Reply

abbrev pub error_duplicate_key : ℕ
error_duplicate_key = 23505

-- A row of `sync_sqls`.
pub record QueueRow : Type 0 where
  pub id : ℕ
  pub sql : Text

-- The variables of the loop, the `apply_id` that `db_sync_status` holds, and the target.
pub record ApplyState (T : Type 0) : Type 0 where
  pub sqltype : SqlType
  pub n_commit : ℕ
  pub apply_id : ℕ
  pub stored : ℕ
  pub target : T

-- `where id > ..`.
unfoldable pub newer : ℕ → List QueueRow → List QueueRow
newer apply_id [] = []
newer apply_id (row ∷ table) =
    let rest = newer apply_id table in if ltb apply_id row.id then row ∷ rest else rest

-- `order by id`.
unfoldable pub insert_by_id : QueueRow → List QueueRow → List QueueRow
insert_by_id row [] = row ∷ []
insert_by_id row (first ∷ rows) =
    let rest = insert_by_id row rows in
    if leb row.id first.id then row ∷ first ∷ rows else first ∷ rest

unfoldable pub order_by_id : List QueueRow → List QueueRow
order_by_id [] = []
order_by_id (row ∷ rows) = insert_by_id row (order_by_id rows)

-- What the cursor is declared over.
unfoldable pub rows_behind : ℕ → List QueueRow → List QueueRow
rows_behind apply_id table = order_by_id (newer apply_id table)

-- The loop goes on, the thread leaves by `goto exit`, or it reads a null pointer.
pub data Outcome (T : Type 0) : Type 0 where
  going : ApplyState T → Outcome T
  exited : ApplyState T → Outcome T
  crashed : Outcome T

abbrev pub is_first : SqlType → Bool
is_first first_statment = true
is_first _ = false

abbrev pub is_commit : SqlType → Bool
is_commit commit = true
is_commit _ = false

abbrev pub is_begin : SqlType → Bool
is_begin begin = true
is_begin _ = false

-- The type of the statement, from that of the one before it.
unfoldable pub next_type : SqlType → Text → SqlType
next_type sqltype sql =
    if str_eq sql (codes "begin;")
    then begin
    else if str_eq sql (codes "commit;")
    then commit
    else if is_begin sqltype
    then first_statment
    else other_statment

module _ {T : Type 0} where
  -- The call of `update_task_status` with no flag set, and a reset of the counter.
  abbrev pub update_task_status : ApplyState T → ApplyState T
  update_task_status st = record st { n_commit = 0; stored = st.apply_id }

  -- The end of a round: what a commit counts.
  unfoldable pub count_commit : ApplyState T → ℕ → ApplyState T
  count_commit st id =
      if is_commit st.sqltype
      then (let st' : ApplyState T = record st { n_commit = st.n_commit + 1; apply_id = id } in
          if st.n_commit + 1 == 5 then update_task_status st' else st')
      else st

  -- No row is left in the cursor.
  unfoldable pub end_of_cursor : ApplyState T → ApplyState T
  end_of_cursor st = if st.n_commit == 0 then st else update_task_status st

  -- A pass starts with no commit counted, and as if behind a `begin;`.
  unfoldable pub start_pass : ApplyState T → ApplyState T
  start_pass st = record st { sqltype = begin; n_commit = 0 }

  abbrev pub and_then : Outcome T → (ApplyState T → Outcome T) → Outcome T
  and_then (going st) f = f st
  and_then (exited st) f = exited st
  and_then crashed f = crashed

  module _ (exec : T → Text → Reply × T) where
    abbrev pub begin_again : ApplyState T → Reply × T → Outcome T
    begin_again st (command_ok, target) = going (record st { sqltype = begin; target = target })
    begin_again st (failed code, target) = exited (record st { target = target })

    abbrev pub end_failed : ApplyState T → Reply × T → Outcome T
    end_failed st (command_ok, target) =
        begin_again (record st { target = target }) (exec target (codes "BEGIN"))
    end_failed st (failed code, target) = exited (record st { target = target })

    -- A duplicate key in the first statement ends the transaction and begins it again; any other
    -- error leaves the thread. `atoi` reads a null pointer if there is no SQLSTATE.
    unfoldable pub on_error : ApplyState T → Option ℕ → Outcome T
    on_error st none = crashed
    on_error st (some code) =
        if code == error_duplicate_key && is_first st.sqltype
        then end_failed st (exec st.target (codes "END"))
        else exited st

    -- The answer to the statement of a row, whose type `st` holds.
    unfoldable pub on_reply : ApplyState T → ℕ → Reply × T → Outcome T
    on_reply st id (command_ok, target) = going (count_commit (record st { target = target }) id)
    on_reply st id (failed code, target) = on_error (record st { target = target }) code

    -- One round of the inner loop, with a row.
    unfoldable pub apply_row : ApplyState T → QueueRow → Outcome T
    apply_row st row =
        on_reply (record st { sqltype = next_type st.sqltype row.sql }) row.id
          (exec st.target row.sql)

    -- The rounds, one for each row that is fetched.
    unfoldable pub apply_rows : ApplyState T → List QueueRow → Outcome T
    apply_rows st [] = going st
    apply_rows st (row ∷ rows) = and_then (apply_row st row) (λ st'. apply_rows st' rows)

    -- One round of the outer loop: the cursor over the rows behind `apply_id`, up to its end.
    unfoldable pub apply_pass : ApplyState T → List QueueRow → Outcome T
    apply_pass st rows =
        and_then (apply_rows (start_pass st) rows) (λ st'. going (end_of_cursor st'))

    -- The rounds of the outer loop, each with what `sync_sqls` holds when its cursor is declared.
    unfoldable pub apply_passes : ApplyState T → List (List QueueRow) → Outcome T
    apply_passes st [] = going st
    apply_passes st (table ∷ tables) =
        and_then (apply_pass st (rows_behind st.apply_id table)) (λ st'. apply_passes st' tables)
