-- ===== src/Stream.antt =====
-- dbsync/utils.c 965-979, 1025-1091 and 1537-1634: the integers of the streaming protocol, the
-- feedback to the server, and what `exec_logical_decoder` does with a frame that it received.
pub mod Integers
pub mod Frames
pub mod Loop
pub mod Clock
use rds_dbsync.Base.{
  ℕ, zero, suc, ◌+◌, ◌*◌, ◌/◌, ◌%◌, ◌^◌, Bool, true, false, not, ◌&&◌, Option, none, some, List, [],
  ◌∷◌, ◌++◌, length, ltb, ◌==◌, if◌then◌else◌, ◌>>=◌,
}
use rds_dbsync.Pqformat.{Pqformat, msb}
use rds_dbsync.Message.{DecodeMessage, zero_message}
use rds_dbsync.Decode.{as_char, bdr_process_remote_action}

-- The fields of `Decoder_handler` that the loop changes.
pub record Handler : Type 0 where
  pub recvpos : ℕ
  pub flushpos : ℕ
  pub startpos : ℕ
  pub last_recvpos : ℕ
  pub msg : DecodeMessage

-- The two halves of the bits of an int64, each in network byte order as `htonl` puts it.
unfoldable pub fe_sendint64 : ℕ → List ℕ
fe_sendint64 i = msb 4 (i / 2 ^ 32 % 2 ^ 32) ++ msb 4 (i % 2 ^ 32)

-- `ntohl` of four bytes.
abbrev pub ntohl : ℕ → ℕ → ℕ → ℕ → ℕ
ntohl a b c d = ((a * 256 + b) * 256 + c) * 256 + d

-- From the first eight bytes; `none` reads behind the buffer.
unfoldable pub fe_recvint64 : List ℕ → Option ℕ
fe_recvint64 (a ∷ b ∷ c ∷ d ∷ e ∷ f ∷ g ∷ h ∷ rest) = some (ntohl a b c d * 2 ^ 32 + ntohl e f g h)
fe_recvint64 _ = none

-- The packet for these positions and this time.
abbrev pub status_packet : ℕ → ℕ → ℕ → Bool → List ℕ
status_packet recvpos flushpos now replyRequested =
    b'r'
    ∷ (fe_sendint64 recvpos
        ++ (fe_sendint64 flushpos
            ++ (fe_sendint64 0 ++ (fe_sendint64 now ++ (if replyRequested then 1 else 0) ∷ []))))

-- The packet that is sent, if one is.
unfoldable pub send_feedback : Handler → ℕ → Bool → Bool → Option (List ℕ) × Handler
send_feedback hander now force replyRequested =
    if not force && hander.last_recvpos == hander.recvpos then (none, hander) else (
      some (status_packet hander.recvpos hander.flushpos now replyRequested),
      record hander { startpos = hander.recvpos; last_recvpos = hander.recvpos },
    )

abbrev pub larger : ℕ → ℕ → ℕ
larger a b = if ltb a b then b else a

abbrev pub nth : ℕ → List ℕ → Option ℕ
nth i [] = none
nth zero (b ∷ bytes) = some b
nth (suc i) (b ∷ bytes) = nth i bytes

-- Another turn of the loop, with a reply before it if the server asked for one; a message; or the
-- end of the connection.
pub data FrameOutcome : Type 0 where
  again : Bool → Handler → FrameOutcome
  decoded error : Handler → FrameOutcome

-- A keepalive, `frame` with its type byte.
unfoldable pub keepalive : Handler → List ℕ → List ℕ → Option FrameOutcome
keepalive hander frame body = do
  walEnd ← fe_recvint64 body
  let hander' = record hander { recvpos = larger hander.recvpos walEnd }
  let reply = nth 17 frame
  if ltb (length frame) 18
      then some (error hander')
      else (reply >>= λ b. some (again (not (b == 0)) hander'))

module _ (pq : Pqformat) where
  abbrev pub answer : Handler → Option ((DecodeMessage × Bool) × List ℕ) → Option FrameOutcome
  answer hander none = none
  answer hander (some ((msg, rc), rest)) =
      let hander' : Handler = record hander { msg = msg } in
      some (if rc then decoded hander' else error hander')

  -- A frame of the log, `body` behind its type byte.
  unfoldable pub log_data : Handler → List ℕ → Option FrameOutcome
  log_data hander body =
      let (start_lsn, body1) = pq.getmsgint64 body in
      let (end_lsn, body2) = pq.getmsgint64 body1 in
      let (send_time, body3) = pq.getmsgint64 body2 in
      answer (record hander { recvpos = larger (larger 0 start_lsn) end_lsn })
        (bdr_process_remote_action pq zero_message body3)

  unfoldable pub receive_frame : Handler → List ℕ → Option FrameOutcome
  receive_frame hander frame =
      let (c, body) = pq.getmsgbyte frame in
      let kind = as_char c in
      if kind == b'k'
      then keepalive hander frame body
      else if kind == b'w'
      then (if ltb (length frame) 26 then some (error hander) else log_data hander body)
      else some (error hander)
