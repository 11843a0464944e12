-- ===== src/Receive/Queued.antt =====
-- From a frame of the stream to a row of the queue.
use rds_dbsync.Base.{ℕ, ◌≡◌, refl, true, false, some, List, [], ◌∷◌, ◌++◌, Text, ◌==◌}
use rds_dbsync.Pqformat.{Pqformat, msb}
use rds_dbsync.Message.{DecodeMessage, msgkind_begin, msgkind_commit}
use rds_dbsync.Quote.{Escapes}
use rds_dbsync.Wire.{
  RowMessage, message_bytes, message_of, FitsMessage, change_kind, RowChange, insert, update,
  delete,
}
use rds_dbsync.Decode.Transactions.{Fits64}
use rds_dbsync.Sql.{out_put_tuple_to_sql}
use rds_dbsync.Stream.{larger}
use rds_dbsync.Stream.Frames.{receive_frame-message_bytes}
use rds_dbsync.Stream.Loop.{
  inserted, Receiver, with_handler, copied, Turn, message, due, exec_turns, exec_logical_decoder,
}
use rds_dbsync.Receive.{Local, stored, add_event, flush, store_sql, Round, receive_rounds}

-- The handler that has received a row message in a frame with this header.
abbrev pub received : Receiver → ℕ → ℕ → RowMessage → Receiver
received r start_lsn end_lsn m =
    with_handler
      (record r.hander { recvpos = larger (larger 0 start_lsn) end_lsn; msg = message_of m }) r

-- A turn in which a frame of the log comes.
abbrev pub log_turn : ℕ → ℕ → ℕ → RowMessage → ℕ → Turn
log_turn start_lsn end_lsn send_time m time = record {
  time_to_stop = false;
  now = time;
  sends = true;
  poll =
      copied (b'w' ∷ (msb 8 start_lsn ++ (msb 8 end_lsn ++ (msb 8 send_time ++ message_bytes m))));
  then_now = time;
  then_sends = true;
}

-- The receiver with the statement of this message as the last row of the queue, and with the position
-- as the one received and flushed.
abbrev pub queued : Receiver → Text → ℕ → DecodeMessage → Receiver
queued r sql position msg = record {
  hander = record r.hander { recvpos = position; flushpos = position; msg = msg };
  last_status = r.last_status;
  trace = inserted sql position ∷ r.trace;
}

row_kind :
    (c : RowChange)
    → ((change_kind c == msgkind_begin) ≡ false) × ((change_kind c == msgkind_commit) ≡ false)
unfolding change_kind
row_kind (insert row) = (refl, refl)
row_kind (update old row) = (refl, refl)
row_kind (delete old) = (refl, refl)

module _ (pq : Pqformat) (esc : Escapes) (timeout : ℕ) (local : Local) where
  exec_logical_decoder-message_bytes :
      (r : Receiver) (start_lsn end_lsn send_time : ℕ) (m : RowMessage) (time : ℕ)
      → Fits64 start_lsn
      → Fits64 end_lsn
      → Fits64 send_time
      → FitsMessage m
      → due pq timeout time (received r start_lsn end_lsn m) ≡ false
      → exec_logical_decoder pq timeout (log_turn start_lsn end_lsn send_time m time ∷ []) r
        ≡ some (message (received r start_lsn end_lsn m))
  unfolding exec_logical_decoder exec_turns
  exec_logical_decoder-message_bytes r start_lsn end_lsn send_time m time hs he ht fits e =
      rw (receive_frame-message_bytes pq r.hander start_lsn end_lsn send_time m hs he ht fits, e)
        refl

  store_sql-row :
      (c : RowChange) (sql : Text) (r : Receiver)
      → local r.trace (inserted sql r.hander.recvpos) ≡ true
      → store_sql local (change_kind c) sql r
        ≡ stored (flush (add_event (inserted sql r.hander.recvpos) r))
  unfolding store_sql
  store_sql-row c sql r e = let (b, k) = row_kind c in rw (b, k, e) refl

  -- A frame of the log that carries a row message, whose statement can be written and is taken by the
  -- local database, at a time when no status is due: the statement becomes the next row of the queue,
  -- the position of the frame's header counts as received and as flushed, and the thread goes on.
  pub receive_rounds-message_bytes :
      (r : Receiver) (start_lsn end_lsn send_time : ℕ) (m : RowMessage) (time rc : ℕ) (sql : Text)
      (rounds : List Round)
      → Fits64 start_lsn
      → Fits64 end_lsn
      → Fits64 send_time
      → FitsMessage m
      → due pq timeout time (received r start_lsn end_lsn m) ≡ false
      → out_put_tuple_to_sql esc (message_of m) ≡ some (rc, sql)
      → local r.trace (inserted sql (larger (larger 0 start_lsn) end_lsn)) ≡ true
      → receive_rounds pq esc timeout local
          (record {
            time_to_abort = false;
            turns = log_turn start_lsn end_lsn send_time m time ∷ [];
          }
            ∷ rounds)
          r
        ≡ receive_rounds pq esc timeout local rounds
            (queued r sql (larger (larger 0 start_lsn) end_lsn) (message_of m))
  unfolding receive_rounds message_of
  receive_rounds-message_bytes r start_lsn end_lsn send_time m time rc sql rounds hs he ht fits d w
        a =
      rw
        (exec_logical_decoder-message_bytes r start_lsn end_lsn send_time m time hs he ht fits d, w)
        (rw (store_sql-row m.change sql (received r start_lsn end_lsn m) a) refl)
