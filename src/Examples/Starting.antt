-- ===== src/Examples/Starting.antt =====
-- The theorems on the log, the parameters of a connection, the configuration and the copy threads,
-- applied to examples.
use rds_dbsync.Base.{
  ℕ, suc, ◌<◌, ◌≡◌, ◌↔◌, refl, Bool, true, false, Option, none, some, List, [], ◌∷◌, ◌++◌, arith,
  Text, codes, length, take, drop,
}
use rds_dbsync.Message.{DecodeMessage, zero_message, msgkind_begin}
use rds_dbsync.Sql.Markers.{out_put_tuple_to_sql-begin}
use rds_dbsync.Log.{Answer, took, refused, ended, write_loop, message_text, out_put_decode_message}
use rds_dbsync.Log.Writes.{out_put_decode_message-logged, write_loop-refused}
use rds_dbsync.Replication.Connect.{ConnOption, argcount, params_of}
use rds_dbsync.Replication.Connect.Filled.{filled, set_pairs, fixed_pairs, params_of-filled}
use rds_dbsync.Config.{main, syncs, Configured, main-syncs}
use rds_dbsync.TableCopy.{PgTask, PgEnv}
use rds_dbsync.Examples.{escapes}

abbrev begins : DecodeMessage
begins = record zero_message { kind = msgkind_begin }

begins-text : message_text escapes false begins ≡ some (codes "begin;")
unfolding message_text
begins-text = rw (out_put_tuple_to_sql-begin escapes begins refl) refl

-- Each write takes two bytes.
abbrev twos : List Answer
twos = took 2 ∷ (took 2 ∷ (took 2 ∷ (took 2 ∷ (took 2 ∷ (took 2 ∷ (took 2 ∷ []))))))

out_put_decode_message-logged_example :
    (rest : List Answer) × (out_put_decode_message escapes false begins twos (codes "-- log\n")
      ≡ some (ended (codes "-- log\n" ++ (codes "begin;" ++ codes "\n")) rest))
out_put_decode_message-logged_example =
    out_put_decode_message-logged escapes false begins (codes "begin;") (codes "-- log\n") twos
      begins-text (omega arith) (omega arith)

write_loop-refused_example :
    write_loop (codes "begin;") (took 3 ∷ (refused ∷ (took 6 ∷ (took 1 ∷ [])))) 0 []
    ≡ write_loop
        (codes "begin;")
        (took 1 ∷ [])
        6
        ([] ++ (take 3 (codes "begin;") ++ drop 2 (codes "begin;")))
write_loop-refused_example = write_loop-refused (codes "begin;") [] 2 (took 1 ∷ []) (omega arith)

abbrev conn_options : List ConnOption
conn_options =
    (codes "host", some (codes "a"))
    ∷ ((codes "port", none) ∷ ((codes "user", some []) ∷ ((codes "dbname", some (codes "b")) ∷ [])))

params_of-filled_example :
    (params_of conn_options
      ≡ some (filled (suc (argcount conn_options)) (set_pairs conn_options ++ fixed_pairs)))
    × (length (set_pairs conn_options ++ fixed_pairs) < suc (argcount conn_options))
params_of-filled_example = params_of-filled conn_options

-- A file with the same string for all three.
abbrev load : Text → Option Text
load path = some (codes "dbname=a")

abbrev value_of : Text → Text → Text → Option Text
value_of ini sec key = some ini

main-syncs_example :
    (main load value_of ≡ syncs (codes "dbname=a") (codes "dbname=a") (codes "dbname=a") 5) ↔ (
      Configured load value_of (codes "dbname=a") (codes "dbname=a") (codes "dbname=a")
      × ◌≡◌ {A = ℕ} 5 5)
main-syncs_example =
    main-syncs load value_of (codes "dbname=a") (codes "dbname=a") (codes "dbname=a") 5

abbrev items : PgTask
items = record { schemaname = codes "public"; relname = codes "items" }

abbrev copying : PgEnv
copying = record {
  origin = λ history command. true;
  target = λ history command. true;
  escape_identifier = λ t. t;
  snapshot = none;
  src_version = 90400;
  desc_version = 90400;
  desc_is_greenplum = false;
  copy_data = λ task. (codes "7\n" ∷ (codes "8\n" ∷ []), true);
}

abbrev all_connect : Text → Bool
all_connect dsn = true

abbrev tables : List PgTask
tables = items ∷ (items ∷ [])
