-- ===== src/Receive/Start.antt =====
-- The start of the receiving thread (dbsync/pgsync.c), before its loop, and the thread as a whole.
use rds_dbsync.Base.{
  ℕ, refl, Bool, true, false, Option, none, some, List, [], ◌∷◌, Text, codes, ◌==◌, if◌then◌else◌,
}
use rds_dbsync.Pqformat.{Pqformat}
use rds_dbsync.Quote.{Escapes}
use rds_dbsync.Message.{zero_message}
use rds_dbsync.Connections.{pglogical_connect}
use rds_dbsync.Replication
use rds_dbsync.Replication.{
  Plan, init_hander, check_handler_parameters, initialize_connection, init_streaming,
}
use rds_dbsync.Stream.Loop.{Receiver, started}
use rds_dbsync.Receive.{Local, Round, ThreadOutcome, receive_rounds}
use rds_dbsync.Receive.Flushed.{OutcomeSound, receive_rounds-OutcomeSound}

-- What the thread finds at its start: whether the local database connects and prepares the insert,
-- whether the source connects, and what it replies.
pub record Starting : Type 0 where
  pub connects : Text → Bool
  pub prepares : Bool
  pub source_connects : Bool
  pub reply : Text → Replication.Reply

-- The thread leaves, or ends the process, or goes on to its loop.
pub data Started : Type 0 where
  leaves exits : Started
  loops : Plan → Started

-- `init_hander`, with the string of the source.
abbrev pub source_plan : Text → Plan
source_plan src = record init_hander { connection_string = some src }

module _ (w : Starting) where
  abbrev pub with_source : Text → Text → Started
  with_source src slot_name =
      let code = initialize_connection w.reply (some src) w.source_connects in
      if check_handler_parameters (source_plan src) == 0
      then (if code == 0
          then loops (record (source_plan src) { replication_slot = some slot_name })
          else exits)
      else exits

  -- What opening the log and starting the stream return is not looked at.
  unfoldable pub start_receive : Text → Text → Text → Started
  start_receive local src slot_name =
      if pglogical_connect w.connects local (codes "rds_logical_sync_decoding")
      then (if w.prepares then with_source src slot_name else leaves)
      else leaves

-- `memset(.., 0, ..)` of the handler, and the start of the stream.
abbrev pub first_receiver : Plan → Receiver
first_receiver plan = record {
  hander = record {
    recvpos = 0;
    flushpos = 0;
    startpos = plan.startpos;
    last_recvpos = 0;
    msg = zero_message;
  };
  last_status = 0;
  trace = started plan.startpos ∷ [];
}

-- In milliseconds.
abbrev pub standby_message_timeout : ℕ
standby_message_timeout = 5000

module _ (pq : Pqformat) (esc : Escapes) (local_db : Local) where
  -- What the thread does from its start on; `none` on the left where it does not come to its loop.
  abbrev pub behind_start : List Round → Started → Option (Option ThreadOutcome)
  behind_start ts leaves = none
  behind_start ts exits = none
  behind_start ts (loops plan) =
      some (receive_rounds pq esc standby_message_timeout local_db ts (first_receiver plan))

  unfoldable pub receive_thread :
      Starting → Text → Text → Text → List Round → Option (Option ThreadOutcome)
  receive_thread w local src slot_name ts = behind_start ts (start_receive w local src slot_name)

  -- What holds of the thread where it comes to its loop.
  abbrev pub ThreadSound : Option (Option ThreadOutcome) → Type 0
  ThreadSound none = Unit
  ThreadSound (some o) = OutcomeSound 0 o

  if-ThreadSound :
      (ts : List Round) (c : Bool) (a b : Started)
      → ThreadSound (behind_start ts a)
      → ThreadSound (behind_start ts b)
      → ThreadSound (behind_start ts (if c then a else b))
  if-ThreadSound ts true a b h k = h
  if-ThreadSound ts false a b h k = k

  -- Whatever the servers answer, and whatever is received: each packet that the thread sends from its
  -- start on tells the source as flushed no position, or that of a row which was inserted into the
  -- queue before the packet; and at each packet an END was executed behind the row of every commit,
  -- so that no transaction which was received to its end is still open in the local database.
  pub receive_thread-ThreadSound :
      (w : Starting) (local src slot_name : Text) (ts : List Round)
      → ThreadSound (receive_thread w local src slot_name ts)
  unfolding receive_thread start_receive
  receive_thread-ThreadSound w local src slot_name ts =
      let plan = record (source_plan src) { replication_slot = some slot_name } in
      let run =
        receive_rounds-OutcomeSound 0 pq esc standby_message_timeout local_db ts
          (first_receiver plan) ((refl, tt), tt) in
      let code = initialize_connection w.reply (some src) w.source_connects == 0 in
      let behind =
        if-ThreadSound ts (check_handler_parameters (source_plan src) == 0)
          (if code then loops plan else exits) exits
          (if-ThreadSound ts code (loops plan) exits run tt) tt in
      if-ThreadSound ts (pglogical_connect w.connects local (codes "rds_logical_sync_decoding"))
        (if w.prepares then with_source w src slot_name else leaves) leaves
        (if-ThreadSound ts w.prepares (with_source w src slot_name) leaves behind tt) tt
