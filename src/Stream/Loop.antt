-- ===== src/Stream/Loop.antt =====
-- The loop of `exec_logical_decoder` (dbsync/utils.c), from one message to the next. What the clock,
-- the socket and libpq give in a turn is an argument.
use rds_dbsync.Base.{
  ℕ, ◌+◌, ◌*◌, Bool, true, false, not, ◌&&◌, Option, none, some, List, [], ◌∷◌, Text, leb, ltb,
  if◌then◌else◌,
}
use rds_dbsync.Pqformat.{Pqformat}
use rds_dbsync.Stream.{Handler, send_feedback, FrameOutcome, again, decoded, error, receive_frame}

-- What the receiving thread does to the world: a packet that it hands to libpq for the source, and
-- statements at the local database, a row of the queue with `recvpos` at its time, or one that is
-- refused; and the start of the replication from a position.
pub data Event : Type 0 where
  reported : List ℕ → Event
  executed : Text → Event
  inserted : Text → ℕ → Event
  refused : Text → Event
  started : ℕ → Event

-- The handler; one more than its `last_status`, which is -1 at first; and what was done so far, the
-- last thing first.
pub record Receiver : Type 0 where
  pub hander : Handler
  pub last_status : ℕ
  pub trace : List Event

-- What `PQgetCopyData` gives: nothing, with the waiting for the socket behind it, which ends by its
-- time or by data; a failure of one of these; the end of the stream, and whether it is a proper one;
-- or a frame.
pub data Poll : Type 0 where
  quiet lost : Poll
  ended : Bool → Poll
  copied : List ℕ → Poll

-- A turn: `*time_to_stop`, the time at its start and whether libpq takes a packet then, what is
-- received, and the time and libpq behind it.
pub record Turn : Type 0 where
  pub time_to_stop : Bool
  pub now : ℕ
  pub sends : Bool
  pub poll : Poll
  pub then_now : ℕ
  pub then_sends : Bool

-- A message; NULL, and whether the connection was closed; or the turns are over.
pub data Result : Type 0 where
  message waiting : Receiver → Result
  no_message : Bool → Receiver → Result

pub data Fed : Type 0 where
  fed failed : Receiver → Fed

abbrev pub then_fed : Fed → (Receiver → Option Result) → Option Result
then_fed (fed r) f = f r
then_fed (failed r) f = some (no_message true r)

abbrev pub report : Option (List ℕ) → List Event → List Event
report none trace = trace
report (some packet) trace = reported packet ∷ trace

abbrev pub with_handler : Handler → Receiver → Receiver
with_handler hander r = record { hander = hander; last_status = r.last_status; trace = r.trace }

abbrev told : Option (List ℕ) × Handler → ℕ → Receiver → Receiver
told (packet, hander) last_status r = record {
  hander = hander;
  last_status = last_status;
  trace = report packet r.trace;
}

-- `sendFeedback(hander, now, true, false)`, and `last_status` behind it.
abbrev pub feedback : Bool → ℕ → Receiver → Fed
feedback sends now r =
    let sent = send_feedback r.hander now true false in
    if sends then fed (told sent (now + 1) r) else failed (told sent r.last_status r)

abbrev pub feedback_if : Bool → Bool → ℕ → Receiver → Fed
feedback_if due sends now r = if due then feedback sends now r else fed r

-- `feTimestampDifferenceExceeds`, of microseconds and milliseconds.
unfoldable pub fe_timestamp_difference_exceeds : ℕ → ℕ → ℕ → Bool
fe_timestamp_difference_exceeds start_time stop_time msec = leb (start_time + msec * 1000) stop_time

module _ (pq : Pqformat) (standby_message_timeout : ℕ) where
  abbrev pub due : ℕ → Receiver → Bool
  due now r =
      ltb 0 standby_message_timeout
      && fe_timestamp_difference_exceeds r.last_status (now + 1) standby_message_timeout

  -- What follows a frame: another turn, with an answer that was asked for; or a message, with a
  -- status that is due.
  abbrev pub behind_frame :
      Turn → Option FrameOutcome → Receiver → (Receiver → Option Result) → Option Result
  behind_frame t none r f = none
  behind_frame t (some (again reply hander)) r f =
      then_fed (feedback_if reply t.then_sends t.then_now (with_handler hander r)) f
  behind_frame t (some (decoded hander)) r f =
      then_fed
        (feedback_if (due t.then_now (with_handler hander r)) t.then_sends t.then_now
          (with_handler hander r))
        (λ r'. some (message r'))
  behind_frame t (some (error hander)) r f = some (no_message true (with_handler hander r))

  -- What follows `PQgetCopyData`; `redo` is given `in_redo` of the next turn.
  abbrev pub behind_poll :
      Turn → Poll → Bool → Receiver → (Bool → Receiver → Option Result) → Option Result
  behind_poll t quiet in_redo r redo = redo true r
  behind_poll t lost in_redo r redo = some (no_message true r)
  behind_poll t (ended proper) in_redo r redo = some (no_message (not proper) r)
  behind_poll t (copied frame) in_redo r redo =
      behind_frame t (receive_frame pq r.hander frame) r (redo in_redo)

  abbrev pub turn : Turn → Bool → Receiver → (Bool → Receiver → Option Result) → Option Result
  turn t in_redo r redo =
      let result =
        then_fed (feedback_if (in_redo && due t.now r) t.sends t.now r)
          (λ r'. behind_poll t t.poll in_redo r' redo) in
      if t.time_to_stop then some (no_message false r) else result

  unfoldable pub exec_turns : List Turn → Bool → Receiver → Option Result
  exec_turns [] in_redo r = some (waiting r)
  exec_turns (t ∷ ts) in_redo r = turn t in_redo r (λ in_redo' r'. exec_turns ts in_redo' r')

  unfoldable pub exec_logical_decoder : List Turn → Receiver → Option Result
  exec_logical_decoder turns r = exec_turns turns false r
