-- ===== src/Examples/Streaming.antt =====
-- The theorems on the streaming protocol, applied to examples.
use rds_dbsync.Base.{◌≡◌, arith}
use rds_dbsync.Message.{zero_message}
use rds_dbsync.Stream.{Handler}
use rds_dbsync.Replication.{lsn_text, pg_lsn_in}
use rds_dbsync.Replication.Lsn.{pg_lsn_in-lsn_text}

abbrev connected : Handler
connected = record {
  recvpos = 90;
  flushpos = 80;
  startpos = 0;
  last_recvpos = 70;
  msg = zero_message;
}

pg_lsn_in-lsn_text_example : pg_lsn_in (lsn_text 94489280735) ≡ 94489280735
pg_lsn_in-lsn_text_example = pg_lsn_in-lsn_text 94489280735 (omega arith)
