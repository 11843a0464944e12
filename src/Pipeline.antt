-- ===== src/Pipeline.antt =====
-- The whole way of a change, from the output plugin at the source (ali_decoding/ali_decoding.c) over
-- the stream and the receiving thread to the queue (dbsync/utils.c, dbsync/pgsync.c). This module
-- has no code of its own: it puts the parts together.
pub mod Database
pub mod Visible
pub mod Delivered
pub mod Stored
pub mod Applied
pub mod Broken
use rds_dbsync.Base.{
  ℕ, ◌+◌, ◌<◌, ◌^◌, ◌≡◌, Bool, true, false, Option, none, some, List, [], ◌∷◌, ◌++◌, Text, length,
  map_option, ◌>>=◌,
}
use rds_dbsync.Pqformat.{Pqformat, msb}
use rds_dbsync.Message.{DecodeMessage, zero_message, msgkind_begin, msgkind_commit}
use rds_dbsync.Wire.{message_of, FitsMessage, RowMessage}
use rds_dbsync.Decode.Transactions.{Fits64}
use rds_dbsync.Plugin.{
  Relation, Server, OutputData, Change, Txn, pg_decode_change, pg_decode_begin_txn,
  pg_decode_commit_txn,
}
use rds_dbsync.Plugin.Described.{IsRowChange, describe}
use rds_dbsync.Quote.{Escapes}
use rds_dbsync.Sql.{out_put_tuple_to_sql}
use rds_dbsync.Stream.Loop.{Event, reported, executed, inserted, refused, started, Turn, copied}
use rds_dbsync.Receive.{Round}
use rds_dbsync.Apply.{QueueRow}

-- What the server decodes from its log: the begin, the changes and the commit of transactions.
pub data Entry (Tuple : Type 0) : Type 0 where
  begun : Txn → Entry Tuple
  changed : Relation → Change Tuple → Entry Tuple
  committed : Txn → ℕ → Entry Tuple

-- An entry in a frame of the stream: the header of the frame, and the time at which it is read.
pub record Sent (Tuple : Type 0) : Type 0 where
  pub entry : Entry Tuple
  pub start_lsn : ℕ
  pub end_lsn : ℕ
  pub send_time : ℕ
  pub time : ℕ

-- The message that describes an entry.
abbrev pub begin_message : Txn → DecodeMessage
begin_message txn = record zero_message {
  kind = msgkind_begin;
  lsn = txn.final_lsn;
  tm = txn.commit_time;
  xid = txn.xid;
}

abbrev pub commit_message : Txn → ℕ → DecodeMessage
commit_message txn commit_lsn = record zero_message {
  kind = msgkind_commit;
  lsn = commit_lsn;
  tm = txn.commit_time;
  end_lsn = txn.end_lsn;
}

-- What fits the wire.
abbrev pub FitsTxn : Txn → Type 0
FitsTxn txn =
    Fits64 txn.final_lsn × Fits64 txn.end_lsn × Fits64 txn.commit_time × (txn.xid < 2 ^ 32)

-- The round of the receiving thread in which a frame with these bytes comes.
abbrev pub frame_round : ℕ → ℕ → ℕ → ℕ → List ℕ → Round
frame_round start_lsn end_lsn send_time time body = record {
  time_to_abort = false;
  turns =
      record {
        time_to_stop = false;
        now = time;
        sends = true;
        poll = copied (b'w' ∷ (msb 8 start_lsn ++ (msb 8 end_lsn ++ (msb 8 send_time ++ body))));
        then_now = time;
        then_sends = true;
      }
      ∷ [];
}

module _ {Datum Tuple : Type 0} (srv : Server Datum Tuple) (esc : Escapes) where
  -- The message, as the descriptions of the entries say it.
  abbrev pub entry_message : Entry Tuple → Option DecodeMessage
  entry_message (begun txn) = some (begin_message txn)
  entry_message (changed rel change) = map_option message_of (describe srv rel change)
  entry_message (committed txn commit_lsn) = some (commit_message txn commit_lsn)

  abbrev pub FitsDescribed : Option RowMessage → Type 0
  FitsDescribed none = ⊥
  FitsDescribed (some m) = FitsMessage m

  abbrev pub FitsEntry : Entry Tuple → Type 0
  FitsEntry (begun txn) = FitsTxn txn
  FitsEntry (changed rel change) = IsRowChange change × FitsDescribed (describe srv rel change)
  FitsEntry (committed txn commit_lsn) = FitsTxn txn × Fits64 commit_lsn

  -- The statement of an entry.
  abbrev pub entry_sql : Entry Tuple → Option Text
  entry_sql e =
      entry_message e >>= λ msg. map_option (λ (p : ℕ × Text). p.1) (out_put_tuple_to_sql esc msg)

  -- The statements of a log, if each entry has one.
  unfoldable pub log_sql : List (Sent Tuple) → Option (List Text)
  log_sql [] = some []
  log_sql (s ∷ log) = entry_sql s.entry >>= λ sql. log_sql log >>= λ sqls. some (sql ∷ sqls)

  -- The entry and the header of its frame fit the wire.
  abbrev pub FitsSent : Sent Tuple → Type 0
  FitsSent s = Fits64 s.start_lsn × Fits64 s.end_lsn × Fits64 s.send_time × FitsEntry s.entry

  module _ (pq : Pqformat) (opts : OutputData) where
    -- What the callbacks of the plugin write.
    unfoldable pub plugin_bytes : Entry Tuple → Option (List ℕ)
    plugin_bytes (begun txn) = some (pg_decode_begin_txn pq txn [])
    plugin_bytes (changed rel change) = pg_decode_change pq srv opts rel change []
    plugin_bytes (committed txn commit_lsn) = some (pg_decode_commit_txn pq txn commit_lsn [])

    -- The rounds in which the frames of a log come, if the plugin can write it.
    unfoldable pub rounds_of : List (Sent Tuple) → Option (List Round)
    rounds_of [] = some []
    rounds_of (s ∷ log) = plugin_bytes s.entry >>= λ bytes. rounds_of log >>= λ rounds.
        some (frame_round s.start_lsn s.end_lsn s.send_time s.time bytes ∷ rounds)
