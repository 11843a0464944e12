-- ===== src/Receive.antt =====
-- The thread that receives the messages and stores their statements in the queue of the local
-- database: `logical_decoding_receive_thread` (dbsync/pgsync.c).
mod Kept
mod Sound
pub mod Flushed
pub mod Queued
pub mod Start
use rds_dbsync.Base.{
  ℕ, Bool, true, false, Option, none, some, List, [], ◌∷◌, Text, codes, ◌==◌, if◌then◌else◌, ◌>>=◌,
}
use rds_dbsync.Pqformat.{Pqformat}
use rds_dbsync.Message.{DecodeMessage, msgkind_begin, msgkind_commit}
use rds_dbsync.Quote.{Escapes}
use rds_dbsync.Sql.{out_put_tuple_to_sql}
use rds_dbsync.Stream.{Handler}
use rds_dbsync.Stream.Loop.{
  Event, executed, inserted, refused, started, Receiver, with_handler, Turn, Result, message,
  waiting, no_message, exec_logical_decoder,
}

-- Whether the local database takes a statement, behind what was done.
abbrev pub Local : Type 0
Local = List Event → Event → Bool

-- `goto exit` ends the thread; that a refused insert also sets `time_to_abort` concerns the others.
pub data Stored : Type 0 where
  stored exits : Receiver → Stored

abbrev pub then_stored : Stored → (Receiver → Stored) → Stored
then_stored (stored r) f = f r
then_stored (exits r) f = exits r

abbrev pub add_event : Event → Receiver → Receiver
add_event e r = record { hander = r.hander; last_status = r.last_status; trace = e ∷ r.trace }

-- `hander->flushpos = hander->recvpos`.
abbrev pub flush : Receiver → Receiver
flush r = with_handler (record r.hander { flushpos = r.hander.recvpos }) r

module _ (local : Local) where
  -- `PQexec`, where the kind of the message is this one.
  abbrev pub execute_if : Bool → Text → Receiver → Stored
  execute_if is_kind sql r =
      if is_kind
      then (if local r.trace (executed sql)
          then stored (add_event (executed sql) r)
          else exits (add_event (refused sql) r))
      else stored r

  -- `PQexecPrepared` of the insert, and the position behind it.
  abbrev pub insert_row : Text → Receiver → Stored
  insert_row sql r =
      if local r.trace (inserted sql r.hander.recvpos)
      then stored (flush (add_event (inserted sql r.hander.recvpos) r))
      else exits (add_event (refused sql) r)

  unfoldable pub store_sql : ℕ → Text → Receiver → Stored
  store_sql kind sql r = then_stored (execute_if (kind == msgkind_begin) (codes "BEGIN") r) (λ r1.
      then_stored (insert_row sql r1) (λ r2. execute_if (kind == msgkind_commit) (codes "END") r2))

-- One round of the loop: `time_to_abort`, and the turns of the wait for a message.
pub record Round : Type 0 where
  pub time_to_abort : Bool
  pub turns : List Turn

-- The thread was told to stop, waits for a message, or left its loop at an error.
pub data ThreadOutcome : Type 0 where
  stopped waits failed : Receiver → ThreadOutcome

module _ (pq : Pqformat) (esc : Escapes) (standby_message_timeout : ℕ) (local : Local) where
  abbrev pub behind_store : Stored → (Receiver → Option ThreadOutcome) → Option ThreadOutcome
  behind_store (stored r) next = next r
  behind_store (exits r) next = some (failed r)

  abbrev pub behind_sql :
      Option (ℕ × Text) → Receiver → (Receiver → Option ThreadOutcome) → Option ThreadOutcome
  behind_sql none r next = none
  behind_sql (some (rc, sql)) r next = behind_store (store_sql local r.hander.msg.kind sql r) next

  -- Without a message the stream is started again, from `startpos`.
  abbrev pub behind_result :
      Option Result → (Receiver → Option ThreadOutcome) → Option ThreadOutcome
  behind_result none next = none
  behind_result (some (waiting r)) next = some (waits r)
  behind_result (some (no_message closed r)) next = next (add_event (started r.hander.startpos) r)
  behind_result (some (message r)) next = behind_sql (out_put_tuple_to_sql esc r.hander.msg) r next

  abbrev pub round : Round → Receiver → (Receiver → Option ThreadOutcome) → Option ThreadOutcome
  round t r next =
      let result = behind_result (exec_logical_decoder pq standby_message_timeout t.turns r) next in
      if t.time_to_abort then some (stopped r) else result

  unfoldable pub receive_rounds : List Round → Receiver → Option ThreadOutcome
  receive_rounds [] r = some (waits r)
  receive_rounds (t ∷ ts) r = round t r (λ r'. receive_rounds ts r')
