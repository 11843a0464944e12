-- ===== src/Examples/Logs.antt =====
-- A transaction with one row, its log and its statements, and what receives and applies them.
use rds_dbsync.Base.{
  ℕ, zero, suc, ◌+◌, ◌<◌, ◌≡◌, refl, ap, length, Bool, true, Option, some, List, [], ◌∷◌, ◌++◌,
  arith, Text, codes, All,
}
use rds_dbsync.Message.{zero_message}
use rds_dbsync.Plugin.{Change}
use rds_dbsync.Plugin.Described.{describe, change_of, key_of}
use rds_dbsync.Plugin.Format.{column_of, cell_of, cells_of}
use rds_dbsync.Sql.Markers.{out_put_tuple_to_sql-begin, out_put_tuple_to_sql-commit}
use rds_dbsync.Sql.Statements.{insert_sql, out_put_tuple_to_sql-insert}
use rds_dbsync.Stream.Loop.{Receiver}
use rds_dbsync.Receive.{Local}
use rds_dbsync.Apply.{Reply, command_ok, SqlType, ApplyState}
use rds_dbsync.Apply.Once.{Batch, Numbered}
use rds_dbsync.Log.{Answer, took}
use rds_dbsync.Log.Writes.{Takes}
use rds_dbsync.Demo.Logged.{Served}
use rds_dbsync.Pipeline.{
  Sent, begin_message, commit_message, begun, changed, committed, log_sql, FitsSent,
}
use rds_dbsync.Examples.{escapes, server, items, txn, inserted, row}
use rds_dbsync.Examples.Messages.{inserted-FitsMessage}

-- A target that keeps its statements.
abbrev pub takes_all : List Text → Text → Reply × List Text
takes_all target sql = (command_ok, target ++ sql ∷ [])

abbrev pub idle : ApplyState (List Text)
idle = record { sqltype = SqlType.begin; n_commit = 0; apply_id = 0; stored = 0; target = [] }

abbrev pub first : Batch
first = record {
  front = record { id = 1; sql = codes "begin;" } ∷ (record { id = 2; sql = codes "DELETE" } ∷ []);
  last = 3;
}

abbrev pub second : Batch
second = record { front = record { id = 4; sql = codes "begin;" } ∷ []; last = 7 }

abbrev pub batches : List Batch
batches = first ∷ (second ∷ [])

pub batches-Numbered : Numbered 0 batches
batches-Numbered = omega arith

-- Every string has a server that connects, and the status has no `apply_id` yet.
abbrev pub all_connect : Text → Bool
all_connect dsn = true

abbrev pub no_number : Text → ℕ
no_number t = 0

abbrev pub accepts : Local
accepts trace e = true

abbrev pub fresh : Receiver
fresh = record {
  hander = record { recvpos = 0; flushpos = 0; startpos = 0; last_recvpos = 0; msg = zero_message };
  last_status = 0;
  trace = [];
}

abbrev pub new_item : Change (List (Option Text))
new_item = Change.insert (some (codes "7") ∷ some (codes "it's") ∷ [])

abbrev pub log : List (Sent (List (Option Text)))
log =
    record { entry = begun txn; start_lsn = 100; end_lsn = 100; send_time = 5; time = 20 }
    ∷ (record {
      entry = changed items new_item;
      start_lsn = 100;
      end_lsn = 110;
      send_time = 6;
      time = 9000000;
    }
        ∷ (record {
          entry = committed txn 110;
          start_lsn = 110;
          end_lsn = 120;
          send_time = 7;
          time = 9000001;
        }
            ∷ []))

abbrev pub statements : List Text
statements = codes "begin;" ∷ insert_sql escapes inserted row ∷ codes "commit;" ∷ []

pub log-FitsSent : All (FitsSent server escapes) log
unfolding describe change_of key_of column_of cell_of cells_of
log-FitsSent = (
  (omega arith, omega arith, omega arith, (omega arith, omega arith, omega arith, omega arith)),
  (
    (omega arith, omega arith, omega arith, (tt, inserted-FitsMessage)),
    (
      (
        omega arith,
        omega arith,
        omega arith,
        ((omega arith, omega arith, omega arith, omega arith), omega arith),
      ),
      tt,
    ),
  ),
)

pub log-statements : log_sql server escapes log ≡ some statements
unfolding log_sql describe change_of key_of column_of cell_of cells_of
log-statements =
    rw
      (
        out_put_tuple_to_sql-begin escapes (begin_message txn) refl,
        out_put_tuple_to_sql-insert escapes inserted row refl inserted-FitsMessage refl
            (omega arith),
        out_put_tuple_to_sql-commit escapes (commit_message txn 110) refl,
      )
      refl

-- The log takes all that it is given, in as many writes as are needed.
abbrev pub bytewise : ℕ → List Answer
bytewise zero = []
bytewise (suc n) = took 1 ∷ bytewise n

pub bytewise-Takes : (n : ℕ) → All Takes (bytewise n)
bytewise-Takes zero = tt
bytewise-Takes (suc n) = (omega arith, bytewise-Takes n)

pub length-bytewise : (n : ℕ) → length (bytewise n) ≡ n
length-bytewise zero = refl
length-bytewise (suc n) = ap suc (length-bytewise n)

pub enough : (n : ℕ) → n < length (bytewise (n + 1))
enough n = omega (arith, length-bytewise (n + 1))

abbrev pub served : List Text → List (List Answer)
served [] = []
served (sql ∷ sqls) = bytewise (length sql + 1) ∷ served sqls

pub served-Served : (sqls : List Text) → Served sqls (served sqls)
served-Served [] = tt
served-Served (sql ∷ sqls) =
    (bytewise-Takes (length sql + 1), enough (length sql), served-Served sqls)

-- What is left of the log where the connection is lost behind the begin and the row.
abbrev pub rest : List (Sent (List (Option Text)))
rest =
    record {
      entry = committed txn 110;
      start_lsn = 110;
      end_lsn = 120;
      send_time = 7;
      time = 9000001;
    }
    ∷ []

abbrev pub rest_statements : List Text
rest_statements = codes "commit;" ∷ []

pub rest-statements : log_sql server escapes rest ≡ some rest_statements
unfolding log_sql
rest-statements = rw (out_put_tuple_to_sql-commit escapes (commit_message txn 110) refl) refl

-- The connection is lost behind the begin and the row.
abbrev pub front : List (Sent (List (Option Text)))
front =
    record { entry = begun txn; start_lsn = 100; end_lsn = 100; send_time = 5; time = 20 }
    ∷ (record {
      entry = changed items new_item;
      start_lsn = 100;
      end_lsn = 110;
      send_time = 6;
      time = 9000000;
    }
        ∷ [])

abbrev pub front_statements : List Text
front_statements = codes "begin;" ∷ (insert_sql escapes inserted row ∷ [])

pub front-statements : log_sql server escapes front ≡ some front_statements
unfolding log_sql describe change_of key_of column_of cell_of cells_of
front-statements =
    rw
      (
        out_put_tuple_to_sql-begin escapes (begin_message txn) refl,
        out_put_tuple_to_sql-insert escapes inserted row refl inserted-FitsMessage refl
            (omega arith),
      )
      refl
