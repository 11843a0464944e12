-- ===== src/Receive/Sound.antt =====
-- What holds of the receiver while `exec_logical_decoder` waits for a message.
use rds_dbsync.Base.{
  codes, str_eq, ℕ, ◌≡◌, ◌⊎◌, refl, sym, subst, Bool, true, false, ◌&&◌, Option, none, some, List,
  [], ◌∷◌, if◌then◌else◌,
}
use rds_dbsync.Pqformat.{Pqformat}
use rds_dbsync.Stream.{
  Handler, status_packet, send_feedback, FrameOutcome, again, decoded, error, receive_frame,
}
use rds_dbsync.Stream.Loop.{
  Event, reported, executed, inserted, refused, started, Receiver, with_handler, Poll, quiet, lost,
  ended, copied, Turn, Result, message, waiting, no_message, Fed, fed, failed, then_fed, feedback,
  feedback_if, due, behind_frame, behind_poll, exec_turns,
}
use rds_dbsync.Receive.Kept.{Keeps, receive_frame-Keeps}

-- The position is the one of the start, or that of a row which was inserted by then.
abbrev pub IsInserted : ℕ → List Event → ℕ → Type 0
IsInserted first [] position = position ≡ first
IsInserted first (inserted sql p ∷ es) position = (position ≡ p) ⊎ IsInserted first es position
IsInserted first (reported packet ∷ es) position = IsInserted first es position
IsInserted first (executed sql ∷ es) position = IsInserted first es position
IsInserted first (refused sql ∷ es) position = IsInserted first es position
IsInserted first (started p ∷ es) position = IsInserted first es position

-- Behind the row of every commit an END was executed: no transaction whose commit was received is
-- still open in the local database.
abbrev pub AllEnded : List Event → Type 0
AllEnded [] = Unit
AllEnded (executed sql ∷ es) = (sql ≡ codes "END") ⊎ AllEnded es
AllEnded (inserted sql p ∷ es) = (str_eq sql (codes "commit;") ≡ false) × AllEnded es
AllEnded (reported packet ∷ es) = AllEnded es
AllEnded (refused sql ∷ es) = AllEnded es
AllEnded (started p ∷ es) = AllEnded es

abbrev pub IsStored : ℕ → List Event → ℕ → Type 0
IsStored first es position = IsInserted first es position × AllEnded es

-- A packet that tells the source that such a position is flushed.
abbrev pub TellsStored : ℕ → List Event → List ℕ → Type 0
TellsStored first es packet =
    (recvpos : ℕ) × (flushpos : ℕ) × (now : ℕ) × (packet ≡ status_packet recvpos flushpos now false)
    × IsStored first es flushpos

-- Each packet tells of a position that was stored before it.
abbrev pub AllTold : ℕ → List Event → Type 0
AllTold first [] = Unit
AllTold first (reported packet ∷ es) = TellsStored first es packet × AllTold first es
AllTold first (inserted sql p ∷ es) = AllTold first es
AllTold first (executed sql ∷ es) = AllTold first es
AllTold first (refused sql ∷ es) = AllTold first es
AllTold first (started p ∷ es) = AllTold first es

abbrev pub IsSound : ℕ → Receiver → Type 0
IsSound first r = IsStored first r.trace r.hander.flushpos × AllTold first r.trace

module _ (first : ℕ) where
  -- What holds of the receiver, however a step ends.
  abbrev FedSound : Fed → Type 0
  FedSound (fed r) = IsSound first r
  FedSound (failed r) = IsSound first r

  abbrev pub ResultSound : Option Result → Type 0
  ResultSound none = Unit
  ResultSound (some (message r)) = IsSound first r
  ResultSound (some (waiting r)) = IsSound first r
  ResultSound (some (no_message closed r)) = IsSound first r

  feedback-FedSound :
      (sends : Bool) (now : ℕ) (r : Receiver) → IsSound first r → FedSound (feedback sends now r)
  unfolding send_feedback
  feedback-FedSound true now r (s, a) = (s, ((_, r.hander.flushpos, now, refl, s), a))
  feedback-FedSound false now r (s, a) = (s, ((_, r.hander.flushpos, now, refl, s), a))

  feedback_if-FedSound :
      (c sends : Bool) (now : ℕ) (r : Receiver)
      → IsSound first r
      → FedSound (feedback_if c sends now r)
  feedback_if-FedSound true sends now r h = feedback-FedSound sends now r h
  feedback_if-FedSound false sends now r h = h

  then_fed-ResultSound :
      (o : Fed) (f : Receiver → Option Result)
      → FedSound o
      → ((r : Receiver) → IsSound first r → ResultSound (f r))
      → ResultSound (then_fed o f)
  then_fed-ResultSound (fed r) f h k = k r h
  then_fed-ResultSound (failed r) f h k = h

  -- Another handler with the same flushed position.
  pub with_handler-IsSound :
      (h : Handler) (r : Receiver)
      → h.flushpos ≡ r.hander.flushpos
      → IsSound first r
      → IsSound first (with_handler h r)
  with_handler-IsSound h r e (s, a) = (subst (IsStored first r.trace) (sym e) s, a)

  module _ (pq : Pqformat) (timeout : ℕ) where
    behind_frame-ResultSound :
        (t : Turn) (o : Option FrameOutcome) (r : Receiver) (f : Receiver → Option Result)
        → Keeps r.hander.flushpos o
        → IsSound first r
        → ((r' : Receiver) → IsSound first r' → ResultSound (f r'))
        → ResultSound (behind_frame pq timeout t o r f)
    behind_frame-ResultSound t none r f k s g = tt
    behind_frame-ResultSound t (some (again reply h)) r f k s g =
        then_fed-ResultSound _ f
          (feedback_if-FedSound reply t.then_sends t.then_now (with_handler h r)
            (with_handler-IsSound h r k s))
          g
    behind_frame-ResultSound t (some (decoded h)) r f k s g =
        then_fed-ResultSound _ _
          (feedback_if-FedSound (due pq timeout t.then_now (with_handler h r)) t.then_sends
            t.then_now (with_handler h r) (with_handler-IsSound h r k s))
          (λ r' s'. s')
    behind_frame-ResultSound t (some (error h)) r f k s g = with_handler-IsSound h r k s

    behind_poll-ResultSound :
        (t : Turn) (p : Poll) (in_redo : Bool) (r : Receiver)
        (redo : Bool → Receiver → Option Result)
        → IsSound first r
        → ((b : Bool) (r' : Receiver) → IsSound first r' → ResultSound (redo b r'))
        → ResultSound (behind_poll pq timeout t p in_redo r redo)
    behind_poll-ResultSound t quiet in_redo r redo s g = g true r s
    behind_poll-ResultSound t lost in_redo r redo s g = s
    behind_poll-ResultSound t (ended proper) in_redo r redo s g = s
    behind_poll-ResultSound t (copied frame) in_redo r redo s g =
        behind_frame-ResultSound t (receive_frame pq r.hander frame) r (redo in_redo)
          (receive_frame-Keeps pq r.hander frame) s (g in_redo)

    if-ResultSound :
        (c : Bool) (r : Receiver) (o : Option Result)
        → IsSound first r
        → ResultSound o
        → ResultSound (if c then some (no_message false r) else o)
    if-ResultSound true r o s k = s
    if-ResultSound false r o s k = k

    pub exec_turns-ResultSound :
        (ts : List Turn) (in_redo : Bool) (r : Receiver)
        → IsSound first r
        → ResultSound (exec_turns pq timeout ts in_redo r)
    unfolding exec_turns
    exec_turns-ResultSound [] in_redo r s = s
    exec_turns-ResultSound (t ∷ ts) in_redo r s =
        let redo : Bool → Receiver → Option Result = λ b r'. exec_turns pq timeout ts b r' in
        if-ResultSound t.time_to_stop r
          (then_fed (feedback_if (in_redo && due pq timeout t.now r) t.sends t.now r)
            (λ r'. behind_poll pq timeout t t.poll in_redo r' redo))
          s
          (then_fed-ResultSound (feedback_if (in_redo && due pq timeout t.now r) t.sends t.now r)
            (λ r'. behind_poll pq timeout t t.poll in_redo r' redo)
            (feedback_if-FedSound (in_redo && due pq timeout t.now r) t.sends t.now r s)
            (λ r' s'.
              behind_poll-ResultSound t t.poll in_redo r' redo s'
                (λ b r'' s''. exec_turns-ResultSound ts b r'' s'')))
