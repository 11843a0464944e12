-- ===== src/Examples/Replicating.antt =====
-- The theorems on the whole way of a log, applied to a transaction with one row.
use rds_dbsync.Base.{
  suc, ◌≡◌, refl, map, false, none, some, List, [], ◌∷◌, ◌++◌, arith, Text, codes,
}
use rds_dbsync.Stream.Loop.{Receiver}
use rds_dbsync.Receive.{Round, waits, receive_rounds}
use rds_dbsync.Apply.{ApplyState, going, apply_passes}
use rds_dbsync.Apply.Effects.{last_commit}
use rds_dbsync.Apply.Accepted.{run}
use rds_dbsync.Apply.Once.{tables, all_rows}
use rds_dbsync.Apply.Start.{get_apply_status, start_apply, apply_thread, apply_thread-once}
use rds_dbsync.Connections.{pglogical_connect}
use rds_dbsync.Demo.{demo_rounds}
use rds_dbsync.Demo
use rds_dbsync.Demo.Logged.{answered, lines, demo_rounds-logged}
use rds_dbsync.Pipeline.{rounds_of}
use rds_dbsync.Pipeline.Database.{database}
use rds_dbsync.Pipeline.Visible.{sql_of}
use rds_dbsync.Pipeline.Applied.{run_all, replicated}
use rds_dbsync.Pipeline.Broken.{lost_round, queued_twice}
use rds_dbsync.Examples.{escapes, server, streaming}
use rds_dbsync.Examples.Buffers.{buffers}
use rds_dbsync.Examples.Logs.{
  takes_all, idle, batches, batches-Numbered, all_connect, no_number, accepts, fresh, log,
  statements, log-FitsSent, log-statements, served, served-Served, front, front_statements, rest,
  rest_statements, rest-statements, front-statements,
}

apply_thread-once_example :
    (st : ApplyState (List Text)) × (apply_thread no_number takes_all all_connect
        (codes "dbname=a")
        (codes "dbname=b")
        (some (none ∷ []))
        []
        (tables [] batches)
      ≡ some (going st))
    × (st.target ≡ run takes_all [] (all_rows batches))
    × (st.stored ≡ 7)
unfolding start_apply get_apply_status pglogical_connect
apply_thread-once_example =
    apply_thread-once no_number takes_all all_connect (codes "dbname=a") (codes "dbname=b")
      (some (none ∷ [])) [] [] batches 0 (λ target sql. refl) refl tt batches-Numbered

replicated_example :
    (ts : List Round) × (r' : Receiver) × (st' : ApplyState (List Text)) × (rounds_of server escapes
        buffers streaming log
      ≡ some ts)
    × (receive_rounds buffers escapes 5000 accepts ts fresh ≡ some (waits r'))
    × (apply_passes takes_all idle ((database (λ n. suc n) r'.trace).visible ∷ []) ≡ going st')
    × (st'.target ≡ run_all takes_all [] statements)
    × (st'.stored ≡ last_commit 0 (database (λ n. suc n) r'.trace).visible)
unfolding database
replicated_example =
    replicated server buffers escapes streaming (λ n. suc n) 5000 accepts takes_all log statements
      fresh idle (record { key_info = refl; column_info = refl; type_as_name = refl }) tt
      (λ trace e. refl) (λ n. omega arith) (omega arith) (λ target sql. refl) log-FitsSent
      log-statements refl (refl, refl) refl

demo_rounds-logged_example :
    (ts : List Round) × (r' : Receiver) × (rounds_of server escapes buffers streaming log ≡ some ts)
    × (demo_rounds buffers escapes false (answered ts (served statements)) fresh (codes "-- log\n")
        ≡ some (Demo.waits r' (codes "-- log\n" ++ lines statements)))
demo_rounds-logged_example =
    demo_rounds-logged server buffers escapes streaming
      (record { key_info = refl; column_info = refl; type_as_name = refl }) log statements
      (served statements) fresh (codes "-- log\n") log-FitsSent log-statements
      (served-Served statements)

queued_twice_example :
    (ts : List Round) × (us : List Round) × (r' : Receiver) × (rounds_of server escapes buffers
        streaming front
      ≡ some ts)
    × (rounds_of server escapes buffers streaming (front ++ rest) ≡ some us)
    × (receive_rounds buffers escapes 5000 accepts (ts ++ lost_round 9000002 ∷ us) fresh
        ≡ some (waits r'))
    × (map sql_of (database (λ n. suc n) r'.trace).visible
        ≡ front_statements ++ (front_statements ++ rest_statements))
unfolding database
queued_twice_example =
    queued_twice server buffers escapes streaming (λ n. suc n) 5000 accepts front rest
      front_statements rest_statements 9000002 fresh
      (record { key_info = refl; column_info = refl; type_as_name = refl }) (λ trace e. refl) tt tt
      (log-FitsSent.0, (log-FitsSent.1.0, tt)) log-FitsSent.1.1 front-statements rest-statements
      refl (refl, refl)
