-- ===== src/Pipeline/Delivered.antt =====
-- What the plugin writes for a log is received, and its statements become rows of the queue.
use rds_dbsync.Base.{
  ℕ, suc, ◌+◌, ◌≡◌, ◌∙◌, refl, ap, true, false, Option, none, some, List, [], ◌∷◌, Text, append-nil,
  length, map_option, Bool-cases, inl, inr,
}
use rds_dbsync.Pqformat.{Pqformat}
use rds_dbsync.Message.{DecodeMessage, zero_message}
use rds_dbsync.Wire.{message_of, message_bytes, RowMessage, begin_bytes, commit_bytes}
use rds_dbsync.Plugin.{Relation, Server, OutputData, Change}
use rds_dbsync.Plugin.Described.{IsStreaming, IsRowChange, describe}
use rds_dbsync.Plugin.Changes.{pg_decode_change-message_bytes}
use rds_dbsync.Plugin.Format.{pg_decode_begin_txn-begin_bytes, pg_decode_commit_txn-commit_bytes}
use rds_dbsync.Decode.{bdr_process_remote_action}
use rds_dbsync.Decode.Rows.{bdr_process_remote_action-message_bytes}
use rds_dbsync.Decode.Transactions.{
  Fits64, bdr_process_remote_action-begin_bytes, bdr_process_remote_action-commit_bytes,
}
use rds_dbsync.Quote.{Escapes}
use rds_dbsync.Stream.{larger, status_packet, send_feedback}
use rds_dbsync.Stream.Frames.{receive_frame-body, length-message_bytes}
use rds_dbsync.Stream.Loop.{
  reported, Receiver, with_handler, message, due, exec_turns, exec_logical_decoder,
}
use rds_dbsync.Pipeline.Database.{database}
use rds_dbsync.Pipeline.{
  Entry, begun, changed, committed, begin_message, commit_message, frame_round, entry_message,
  FitsEntry, FitsDescribed, plugin_bytes,
}

pub statement_inv :
    (o : Option (ℕ × Text)) (sql : Text)
    → map_option (λ (p : ℕ × Text). p.1) o ≡ some sql
    → (rc : ℕ) × (o ≡ some (rc, sql))
statement_inv none sql h = cc
statement_inv (some (rc, text)) sql h = (rc, cc)

module _ {Datum Tuple : Type 0} (srv : Server Datum Tuple) (pq : Pqformat) (esc : Escapes)
    (opts : OutputData) (on : IsStreaming opts) where
  -- The bytes of an entry are written, and read as the message that describes it.
  abbrev pub Read : Entry Tuple → Type 0
  Read e =
      (bytes : List ℕ) × (msg : DecodeMessage) × (n : ℕ) × (plugin_bytes srv esc pq opts e
        ≡ some bytes)
      × (entry_message srv esc e ≡ some msg)
      × (bdr_process_remote_action pq zero_message bytes ≡ some ((msg, true), []))
      × (length bytes ≡ suc n)

  changed-Read :
      (rel : Relation) (change : Change Tuple) (o : Option RowMessage)
      → describe srv rel change ≡ o
      → IsRowChange change
      → FitsDescribed srv esc o
      → Read (changed rel change)
  unfolding plugin_bytes
  changed-Read rel change none d row fits = absurd fits
  changed-Read rel change (some m) d row fits =
      let (n, whole) = length-message_bytes m in
      (
        message_bytes m,
        message_of m,
        n,
        pg_decode_change-message_bytes srv pq rel opts on change [] row ∙ rw d refl,
        ap (map_option message_of) d,
        (rw (append-nil (message_bytes m)) at
            (bdr_process_remote_action-message_bytes pq m [] fits)),
        whole,
      )

  pub FitsEntry-Read : (e : Entry Tuple) → FitsEntry srv esc e → Read e
  unfolding plugin_bytes begin_bytes commit_bytes
  FitsEntry-Read (begun txn) (hf, he, ht, hx) =
      let bytes = begin_bytes txn.final_lsn txn.commit_time txn.xid in
      (
        bytes,
        begin_message txn,
        _,
        ap some (pg_decode_begin_txn-begin_bytes pq txn []),
        refl,
        (rw (append-nil bytes) at (
            bdr_process_remote_action-begin_bytes pq zero_message txn.final_lsn txn.commit_time
              txn.xid [] hf ht hx)),
        refl,
      )
  FitsEntry-Read (changed rel change) (row, fits) = changed-Read rel change _ refl row fits
  FitsEntry-Read (committed txn commit_lsn) ((hf, he, ht, hx), hc) =
      let bytes = commit_bytes 0 commit_lsn txn.end_lsn txn.commit_time in
      (
        bytes,
        commit_message txn commit_lsn,
        _,
        ap some (pg_decode_commit_txn-commit_bytes pq txn commit_lsn []),
        refl,
        (rw (append-nil bytes) at (
            bdr_process_remote_action-commit_bytes pq zero_message commit_lsn txn.end_lsn
              txn.commit_time [] hc he ht)),
        refl,
      )

  module _ (serial : ℕ → ℕ) (timeout : ℕ) where
    -- The receiver behind a frame, whether a status was due or not.
    pub exec_logical_decoder-body :
        (r : Receiver) (start_lsn end_lsn send_time time : ℕ) (body : List ℕ) (msg : DecodeMessage)
        (n : ℕ)
        → Fits64 start_lsn
        → Fits64 end_lsn
        → Fits64 send_time
        → bdr_process_remote_action pq zero_message body ≡ some ((msg, true), [])
        → length body ≡ suc n
        → (r' : Receiver) × (exec_logical_decoder pq timeout
              (frame_round start_lsn end_lsn send_time time body).turns
              r
            ≡ some (message r'))
          × (r'.hander.msg ≡ msg)
          × (database serial r'.trace ≡ database serial r.trace)
    unfolding exec_logical_decoder exec_turns send_feedback database
    exec_logical_decoder-body r start_lsn end_lsn send_time time body msg n hs he ht read whole =
        let position = larger (larger 0 start_lsn) end_lsn in
        let got : Receiver = with_handler (record r.hander { recvpos = position; msg = msg }) r in
        let frame =
          receive_frame-body pq r.hander start_lsn end_lsn send_time body msg n hs he ht read
            whole in
        elim (Bool-cases (due pq timeout time got)) [
          | inl yes_ ↦ (
            record {
              hander = record got.hander { startpos = position; last_recvpos = position };
              last_status = time + 1;
              trace = reported (status_packet position r.hander.flushpos time false) ∷ r.trace;
            },
            rw (frame, yes_) refl,
            refl,
            refl,
          )
          | inr no_ ↦ (got, rw (frame, no_) refl, refl, refl)
        ]
