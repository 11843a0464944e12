-- ===== src/Receive/Kept.antt =====
-- A frame does not move the position that is told as flushed.
use rds_dbsync.Base.{
  ℕ, ◌≡◌, inl, inr, refl, Bool, true, false, not, Option, Option-cases, none, some, List, ltb,
  length, ◌==◌, if◌then◌else◌, ◌>>=◌,
}
use rds_dbsync.Pqformat.{Pqformat}
use rds_dbsync.Message.{DecodeMessage, zero_message}
use rds_dbsync.Decode.{as_char, bdr_process_remote_action}
use rds_dbsync.Stream.{
  Handler, FrameOutcome, again, decoded, error, keepalive, log_data, answer, receive_frame,
  fe_recvint64, nth, larger,
}

-- The position that was flushed is this one, where there is an outcome.
abbrev pub Keeps : ℕ → Option FrameOutcome → Type 0
Keeps f none = Unit
Keeps f (some (again reply h)) = h.flushpos ≡ f
Keeps f (some (decoded h)) = h.flushpos ≡ f
Keeps f (some (error h)) = h.flushpos ≡ f

Keeps-if :
    (f : ℕ) (c : Bool) (a b : Option FrameOutcome)
    → Keeps f a
    → Keeps f b
    → Keeps f (if c then a else b)
Keeps-if f true a b h k = h
Keeps-if f false a b h k = k

keepalive-reply :
    (h : Handler) (o : Option ℕ) → Keeps h.flushpos (o >>= λ b. some (again (not (b == 0)) h))
keepalive-reply h none = tt
keepalive-reply h (some b) = refl

keepalive-Keeps : (h : Handler) (frame body : List ℕ) → Keeps h.flushpos (keepalive h frame body)
unfolding keepalive
keepalive-Keeps h frame body = elim (Option-cases (fe_recvint64 body)) [
  | inl e ↦ rw (e, ◌>>=◌) tt
  | inr (w, e) ↦
      let h' = record h { recvpos = larger h.recvpos w } in
      rw (e, ◌>>=◌)
        (Keeps-if h.flushpos (ltb (length frame) 18) (some (error h'))
          (nth 17 frame >>= λ b. some (again (not (b == 0)) h')) refl
          (keepalive-reply h' (nth 17 frame)))
]

answer-Keeps :
    (pq : Pqformat) (h : Handler) (o : Option ((DecodeMessage × Bool) × List ℕ))
    → Keeps h.flushpos (answer pq h o)
answer-Keeps pq h none = tt
answer-Keeps pq h (some ((msg, true), rest)) = refl
answer-Keeps pq h (some ((msg, false), rest)) = refl

log_data-Keeps :
    (pq : Pqformat) (h : Handler) (body : List ℕ) → Keeps h.flushpos (log_data pq h body)
unfolding log_data
log_data-Keeps pq h body =
    let (start_lsn, body1) = pq.getmsgint64 body in
    let (end_lsn, body2) = pq.getmsgint64 body1 in
    answer-Keeps pq (record h { recvpos = larger (larger 0 start_lsn) end_lsn })
      (bdr_process_remote_action pq zero_message (pq.getmsgint64 body2).1)

pub receive_frame-Keeps :
    (pq : Pqformat) (h : Handler) (frame : List ℕ) → Keeps h.flushpos (receive_frame pq h frame)
unfolding receive_frame
receive_frame-Keeps pq h frame =
    let (c, body) = pq.getmsgbyte frame in
    Keeps-if h.flushpos (as_char c == b'k') _ _ (keepalive-Keeps h frame body) (
      Keeps-if h.flushpos (as_char c == b'w') _ _
        (Keeps-if h.flushpos (ltb (length frame) 26) _ _ refl (log_data-Keeps pq h body)) refl)
