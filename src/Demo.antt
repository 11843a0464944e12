-- ===== src/Demo.antt =====
-- dbsync/demo.cpp: the program that decodes the changes of a database and writes their statements
-- to a log. What the server, libpq, the signal and the log answer is an argument.
pub mod Logged
use rds_dbsync.Base.{
  ℕ, Bool, true, false, not, Option, none, some, List, [], ◌∷◌, Text, codes, ◌==◌, if◌then◌else◌,
}
use rds_dbsync.Pqformat.{Pqformat}
use rds_dbsync.Quote.{Escapes}
use rds_dbsync.Log.{Answer, Written, ended, writing, overrun, out_put_decode_message}
use rds_dbsync.Replication
use rds_dbsync.Replication.{
  Plan, Slot, init_hander, check_handler_parameters, initialize_connection, create_replication_slot,
}
use rds_dbsync.Stream.Loop.{
  started, Receiver, with_handler, Turn, Result, message, waiting, no_message, exec_logical_decoder,
}
use rds_dbsync.Receive.{add_event, flush}
use rds_dbsync.Receive.Start.{first_receiver, standby_message_timeout}

-- One round of the loop: `time_to_abort`, the turns of the wait for a message, and what the log
-- answers.
pub record DemoRound : Type 0 where
  pub time_to_abort : Bool
  pub turns : List Turn
  pub answers : List Answer

-- Told to stop; waiting for a message, or for the log; or a write from before the buffer.
pub data DemoOutcome : Type 0 where
  stopped waits : Receiver → Text → DemoOutcome
  unfinished : Text → DemoOutcome
  overran : DemoOutcome

module _ (pq : Pqformat) (esc : Escapes) (verbose : Bool) where
  -- `out_put_decode_message`, and the position behind it.
  abbrev pub behind_log :
      Option Written → Receiver → (Receiver → Text → Option DemoOutcome) → Option DemoOutcome
  behind_log none r f = none
  behind_log (some (ended file answers)) r f = f (flush r) file
  behind_log (some (writing file)) r f = some (unfinished file)
  behind_log (some overrun) r f = some overran

  -- Without a message the program sleeps, connects again and starts the stream from `startpos`.
  abbrev pub behind_message :
      List Answer
      → Option Result
      → Text
      → (Receiver → Text → Option DemoOutcome)
      → Option DemoOutcome
  behind_message answers none file f = none
  behind_message answers (some (waiting r)) file f = some (waits r file)
  behind_message answers (some (no_message closed r)) file f =
      f (add_event (started r.hander.startpos) r) file
  behind_message answers (some (message r)) file f =
      behind_log (out_put_decode_message esc verbose r.hander.msg answers file) r f

  abbrev pub demo_round :
      DemoRound → Receiver → Text → (Receiver → Text → Option DemoOutcome) → Option DemoOutcome
  demo_round t r file f =
      let result =
        behind_message t.answers (exec_logical_decoder pq standby_message_timeout t.turns r) file
          f in
      if t.time_to_abort then some (stopped r file) else result

  unfoldable pub demo_rounds : List DemoRound → Receiver → Text → Option DemoOutcome
  demo_rounds [] r file = some (waits r file)
  demo_rounds (t ∷ ts) r file = demo_round t r file (λ r' file'. demo_rounds ts r' file')

-- What the program finds: whether the source connects, what it replies, and how a position is
-- scanned.
pub record DemoWorld : Type 0 where
  pub connects : Bool
  pub reply : Text → Replication.Reply
  pub sscanf : Text → Option (ℕ × ℕ)

-- The program ends with a code, or loops over its rounds.
pub data Demo : Type 0 where
  ends : ℕ → Demo
  loops : Option DemoOutcome → Demo

-- The handler of the program: what `init_hander` makes, with a fixed string.
abbrev pub demo_plan : Plan
demo_plan = record init_hander {
  connection_string =
      some (codes "host=192.168.1.1 port=3001 dbname=test user=test password=123456");
}

-- The receiver behind the start of the stream; a slot that is created then moves `startpos`.
abbrev with_startpos : ℕ → Receiver → Receiver
with_startpos startpos r = with_handler (record r.hander { startpos = startpos }) r

abbrev created : Option Slot → (Slot → Demo) → Demo
created none f = ends 1
created (some slot) f = f slot

module _ (pq : Pqformat) (esc : Escapes) (w : DemoWorld) where
  -- What follows the start of the stream. `init_hander` decides which of these branches is taken;
  -- what the source replies to a dropped slot is not looked at.
  abbrev with_stream : Plan → List DemoRound → Text → Demo
  with_stream plan ts file =
      let first = first_receiver plan in
      let run : Receiver → Demo =
        λ r. if plan.do_start_slot then loops (demo_rounds pq esc false ts r file) else ends 0 in
      let slot =
        create_replication_slot w.reply w.sscanf plan.do_create_slot (some (codes "test")) in
      if plan.do_drop_slot
      then ends 0
      else if plan.do_create_slot
      then created slot (λ s. run (with_startpos s.startpos first))
      else run first

  -- What opening the log and starting the stream return is not looked at.
  unfoldable pub demo_main : List DemoRound → Text → Demo
  demo_main ts file =
      if not (check_handler_parameters demo_plan == 0)
      then ends 1
      else if not (initialize_connection w.reply demo_plan.connection_string w.connects == 0)
      then ends 1
      else with_stream demo_plan ts file
