-- ===== src/Stream/Frames.antt =====
-- The frames of the streaming protocol that dbsync/utils.c receives.
use rds_dbsync.Base.{
  ℕ, zero, suc, ◌+◌, ◌≡◌, refl, true, false, not, some, List, [], ◌∷◌, ◌++◌, append-nil, arith,
  length, ltb, ◌==◌,
}
use rds_dbsync.Pqformat.{Pqformat, msb}
use rds_dbsync.Wire.{RowMessage, message_bytes, message_of, FitsMessage}
use rds_dbsync.Decode.Rows.{bdr_process_remote_action-message_bytes}
use rds_dbsync.Decode.Transactions.{Fits64}
use rds_dbsync.Message.{DecodeMessage, zero_message}
use rds_dbsync.Decode.{bdr_process_remote_action}
use rds_dbsync.Stream.{Handler, again, decoded, larger, keepalive, log_data, receive_frame}
use rds_dbsync.Stream.Integers.{fe_recvint64-msb}

length-msb : (b i : ℕ) (rest : List ℕ) → length (msb b i ++ rest) ≡ b + length rest
unfolding msb
length-msb zero i rest = omega arith
length-msb (suc b) i rest = omega (arith, length-msb b i rest)

pub length-message_bytes : (m : RowMessage) → (n : ℕ) × (length (message_bytes m) ≡ suc n)
unfolding message_bytes
length-message_bytes m = (_, refl)

-- The header and at least one byte.
log_length :
    (start_lsn end_lsn send_time : ℕ) (body : List ℕ) (n : ℕ)
    → length body ≡ suc n
    → ltb (suc (length (msb 8 start_lsn ++ (msb 8 end_lsn ++ (msb 8 send_time ++ body))))) 26
      ≡ false
log_length start_lsn end_lsn send_time body n whole =
    rw
      (
        length-msb 8 start_lsn (msb 8 end_lsn ++ (msb 8 send_time ++ body)),
        length-msb 8 end_lsn (msb 8 send_time ++ body),
        length-msb 8 send_time body,
        whole,
      )
      (long_enough n)
  where
    long_enough : (n : ℕ) → ltb (suc (8 + (8 + (8 + suc n)))) 26 ≡ false
    long_enough n = ground arith

module _ (pq : Pqformat) where
  -- A frame of the log with these bytes behind its header, of which there is one at least.
  pub receive_frame-body :
      (hander : Handler) (start_lsn end_lsn send_time : ℕ) (body : List ℕ) (msg : DecodeMessage)
      (n : ℕ)
      → Fits64 start_lsn
      → Fits64 end_lsn
      → Fits64 send_time
      → bdr_process_remote_action pq zero_message body ≡ some ((msg, true), [])
      → length body ≡ suc n
      → receive_frame pq hander
          (b'w' ∷ (msb 8 start_lsn ++ (msb 8 end_lsn ++ (msb 8 send_time ++ body))))
        ≡ some
            (decoded (record hander { recvpos = larger (larger 0 start_lsn) end_lsn; msg = msg }))
  unfolding receive_frame log_data
  receive_frame-body hander start_lsn end_lsn send_time body msg n hs he ht received whole =
      let body2 : List ℕ = msb 8 send_time ++ body in
      let body1 : List ℕ = msb 8 end_lsn ++ body2 in
      simp
        (
          pq.getmsgbyte_lem b'w' (msb 8 start_lsn ++ body1) (omega arith),
          pq.getmsgint64_lem start_lsn body1 hs,
          pq.getmsgint64_lem end_lsn body2 he,
          pq.getmsgint64_lem send_time body ht,
        )
        (rw (log_length start_lsn end_lsn send_time body n whole, received) refl)

  -- A frame of the log that carries a row message which fits the wire is read: the message is
  -- what was described, and the position received is the larger one of the two in the frame's
  -- header.
  pub receive_frame-message_bytes :
      (hander : Handler) (start_lsn end_lsn send_time : ℕ) (m : RowMessage)
      → Fits64 start_lsn
      → Fits64 end_lsn
      → Fits64 send_time
      → FitsMessage m
      → receive_frame pq hander
          (b'w' ∷ (msb 8 start_lsn ++ (msb 8 end_lsn ++ (msb 8 send_time ++ message_bytes m))))
        ≡ some (
            decoded
              (record hander { recvpos = larger (larger 0 start_lsn) end_lsn; msg = message_of m }))
  receive_frame-message_bytes hander start_lsn end_lsn send_time m hs he ht fits =
      let (n, whole) = length-message_bytes m in
      receive_frame-body hander start_lsn end_lsn send_time (message_bytes m) (message_of m) n hs he
        ht
        (rw (append-nil (message_bytes m)) at
          (bdr_process_remote_action-message_bytes pq m [] fits))
        whole

  -- A keepalive moves the position received forward, never back, and asks for a reply as its last
  -- byte says.
  pub receive_frame-keepalive :
      (hander : Handler) (wal_end send_time reply : ℕ)
      → Fits64 wal_end
      → receive_frame pq hander (b'k' ∷ (msb 8 wal_end ++ (msb 8 send_time ++ reply ∷ [])))
        ≡ some
            (again (not (reply == 0)) (record hander { recvpos = larger hander.recvpos wal_end }))
  unfolding receive_frame keepalive msb
  receive_frame-keepalive hander wal_end send_time reply h =
      rw (pq.getmsgbyte_lem b'k' (msb 8 wal_end ++ (msb 8 send_time ++ reply ∷ [])) (omega arith))
        (rw (fe_recvint64-msb wal_end (msb 8 send_time ++ reply ∷ []) h) refl)
