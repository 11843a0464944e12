-- ===== src/Examples/Receiving.antt =====
-- The theorems on the receiving thread, applied to examples.
use rds_dbsync.Base.{◌≡◌, refl, true, false, none, some, [], ◌∷◌, arith, codes}
use rds_dbsync.Message.{zero_message}
use rds_dbsync.Sql.Statements.{insert_sql, out_put_tuple_to_sql-insert}
use rds_dbsync.Stream.{larger}
use rds_dbsync.Stream.Loop
use rds_dbsync.Stream.Loop.{Receiver, Turn, quiet, lost, ended}
use rds_dbsync.Receive.{Local, Round, receive_rounds}
use rds_dbsync.Receive.Start.{Starting, ThreadSound, receive_thread, receive_thread-ThreadSound}
use rds_dbsync.Receive.Queued.{queued, log_turn, receive_rounds-message_bytes}
use rds_dbsync.Connections.{issue}
use rds_dbsync.TableCopy.{PgTask, PgEnv, put_rows, copy_table_data}
use rds_dbsync.SyncMain.{TaskStatus, Servers, db_sync_main}
use rds_dbsync.SyncMain.Trace.{Ordered, actions_of}
use rds_dbsync.SyncMain.Order.{db_sync_main-Ordered}
use rds_dbsync.Wire.{message_of}
use rds_dbsync.Examples.{escapes, row, inserted}
use rds_dbsync.Examples.Buffers.{buffers}
use rds_dbsync.Examples.Messages.{inserted-FitsMessage}

abbrev takes_all : Local
takes_all trace e = true

abbrev connected : Receiver
connected = record {
  hander = record { recvpos = 0; flushpos = 0; startpos = 0; last_recvpos = 0; msg = zero_message };
  last_status = 0;
  trace = [];
}

-- Nothing comes for a long time, so that a status is sent, and then the stream breaks.
abbrev breaks : Round
breaks = record {
  time_to_abort = false;
  turns =
      record {
        time_to_stop = false;
        now = 10;
        sends = true;
        poll = quiet;
        then_now = 20;
        then_sends = true;
      }
      ∷ record {
        time_to_stop = false;
        now = 9000000;
        sends = true;
        poll = lost;
        then_now = 9000001;
        then_sends = true;
      }
      ∷ [];
}

abbrev brings : Round
brings = record { time_to_abort = false; turns = log_turn 100 120 5 inserted 30 ∷ [] }

-- All that the thread asks for is there.
abbrev starting : Starting
starting = record {
  connects = λ dsn. true;
  prepares = true;
  source_connects = true;
  reply = λ query. record { has_status = true; ntuples = 1; nfields = 4; value = λ i j. [] };
}

receive_thread-ThreadSound_example : ThreadSound buffers escapes takes_all (
    receive_thread buffers escapes takes_all starting
      (codes "dbname=a")
      (codes "dbname=b")
      (codes "slot")
      (brings ∷ (breaks ∷ [])))
receive_thread-ThreadSound_example =
    receive_thread-ThreadSound buffers escapes takes_all starting (codes "dbname=a")
      (codes "dbname=b") (codes "slot") (brings ∷ (breaks ∷ []))

receive_rounds-message_bytes_example :
    receive_rounds buffers escapes 5000 takes_all (brings ∷ breaks ∷ []) connected
    ≡ receive_rounds buffers escapes 5000 takes_all (breaks ∷ []) (
        queued connected
          (insert_sql escapes inserted row)
          (larger (larger 0 100) 120)
          (message_of inserted))
unfolding Loop.fe_timestamp_difference_exceeds
receive_rounds-message_bytes_example =
    receive_rounds-message_bytes buffers escapes 5000 takes_all connected 100 120 5 inserted 30 0
      (insert_sql escapes inserted row) (breaks ∷ []) (omega arith) (omega arith) (omega arith)
      inserted-FitsMessage refl
      (out_put_tuple_to_sql-insert escapes inserted row refl inserted-FitsMessage refl
        (omega arith))
      refl

abbrev new_task : TaskStatus
new_task = record { full_start = none; full_end = none; decoder_start = none; apply_id = none }

abbrev servers : Servers
servers = record {
  src_connects = true;
  desc_connects = true;
  local_connects = true;
  src_version = 90400;
  src_is_greenplum = false;
  status_rows = some (new_task ∷ []);
  slots = some 0;
  repl_connects = true;
  slot_snapshot = some (codes "0001-1");
  begins = true;
  synchronized_snapshot = some (codes "0002-1");
  tables = some ((codes "public", codes "items") ∷ []);
  decimal = λ n. [];
}

db_sync_main-Ordered_example : Ordered servers (actions_of (db_sync_main servers))
db_sync_main-Ordered_example = db_sync_main-Ordered servers

abbrev items : PgTask
items = record { schemaname = codes "public"; relname = codes "items" }

abbrev copying : PgEnv
copying = record {
  origin = λ history command. true;
  target = λ history command. true;
  escape_identifier = λ t. t;
  snapshot = none;
  src_version = 90400;
  desc_version = 90400;
  desc_is_greenplum = false;
  copy_data = λ task. (codes "7\n" ∷ codes "8\n" ∷ [], true);
}

completes : (copy_table_data copying items [] []).complete ≡ true
unfolding copy_table_data put_rows issue
completes = refl
