-- ===== src/Codec.antt =====
-- The two ends of the decoding protocol together: ali_decoding/ali_decoding.c writes a message,
-- dbsync/pg_logicaldecode.c reads it.
use rds_dbsync.Base.{ℕ, ◌<◌, ◌^◌, ◌≡◌, true, none, some, List, [], ◌++◌, ◌∙◌}
use rds_dbsync.Pqformat.{Pqformat}
use rds_dbsync.Message.{DecodeMessage, zero_message, msgkind_begin, msgkind_commit}
use rds_dbsync.Wire.{RowMessage, message_bytes, message_of, FitsMessage}
use rds_dbsync.Plugin.{
  Relation, Server, OutputData, Change, Txn, pg_decode_change, pg_decode_begin_txn,
  pg_decode_commit_txn,
}
use rds_dbsync.Plugin.Described.{IsStreaming, IsRowChange, describe}
use rds_dbsync.Plugin.Changes.{pg_decode_change-message_bytes}
use rds_dbsync.Plugin.Format.{pg_decode_begin_txn-begin_bytes, pg_decode_commit_txn-commit_bytes}
use rds_dbsync.Decode.{bdr_process_remote_action}
use rds_dbsync.Decode.Rows.{bdr_process_remote_action-message_bytes}
use rds_dbsync.Decode.Transactions.{
  Fits64, bdr_process_remote_action-begin_bytes, bdr_process_remote_action-commit_bytes,
}

module _ {Datum Tuple : Type 0} (srv : Server Datum Tuple) (pq : Pqformat) where
  -- With every switch on, a change that the plugin describes by a message which fits the wire is
  -- written, and reading what was written, from a cleared message, gives that message and uses up
  -- exactly those bytes; no write leaves the arrays.
  pub decode-pg_decode_change :
      (rel : Relation) (opts : OutputData) (change : Change Tuple) (m : RowMessage) (rest : List ℕ)
      → IsStreaming opts
      → IsRowChange change
      → describe srv rel change ≡ some m
      → FitsMessage m
      → (bytes : List ℕ) × (pg_decode_change pq srv opts rel change [] ≡ some bytes)
        × (bdr_process_remote_action pq zero_message (bytes ++ rest)
            ≡ some ((message_of m, true), rest))
  decode-pg_decode_change rel opts change m rest on h d fits = (
    message_bytes m,
    pg_decode_change-message_bytes srv pq rel opts on change [] h ∙ rw d,
    bdr_process_remote_action-message_bytes pq m rest fits,
  )

  -- With every switch on, a change that has no description, such as a row with a value of an
  -- unknown type, ends the callback with an error.
  pub pg_decode_change_undescribed :
      (rel : Relation) (opts : OutputData) (change : Change Tuple) (out : List ℕ)
      → IsStreaming opts
      → IsRowChange change
      → describe srv rel change ≡ none
      → pg_decode_change pq srv opts rel change out ≡ none
  pg_decode_change_undescribed rel opts change out on h d =
      pg_decode_change-message_bytes srv pq rel opts on change out h ∙ rw d

module _ (pq : Pqformat) where
  -- The start and the end of a transaction whose fields fit their widths are read back as they
  -- were written, wherever they stand, and leave the other fields of the message alone.
  pub decode-transaction :
      (txn : Txn) (commit_lsn : ℕ) (msg : DecodeMessage) (rest : List ℕ)
      → Fits64 txn.final_lsn
      → Fits64 txn.end_lsn
      → Fits64 txn.commit_time
      → txn.xid < 2 ^ 32
      → Fits64 commit_lsn
      → (bdr_process_remote_action pq msg (pg_decode_begin_txn pq txn [] ++ rest)
          ≡ some (
            (
              record msg {
                kind = msgkind_begin;
                lsn = txn.final_lsn;
                tm = txn.commit_time;
                xid = txn.xid;
              },
              true,
            ),
            rest,
          ))
        × (bdr_process_remote_action pq msg (pg_decode_commit_txn pq txn commit_lsn [] ++ rest)
            ≡ some (
              (
                record msg {
                  kind = msgkind_commit;
                  lsn = commit_lsn;
                  tm = txn.commit_time;
                  end_lsn = txn.end_lsn;
                },
                true,
              ),
              rest,
            ))
  decode-transaction txn commit_lsn msg rest hf he ht hx hc = (
    rw (pg_decode_begin_txn-begin_bytes pq txn []) (
        bdr_process_remote_action-begin_bytes pq msg txn.final_lsn txn.commit_time txn.xid rest hf
          ht hx),
    rw (pg_decode_commit_txn-commit_bytes pq txn commit_lsn []) (
        bdr_process_remote_action-commit_bytes pq msg commit_lsn txn.end_lsn txn.commit_time rest hc
          he ht),
  )
