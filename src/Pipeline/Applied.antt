-- ===== src/Pipeline/Applied.antt =====
-- The whole way of a log, from the callbacks of the plugin to the target.
use rds_dbsync.Base.{
  suc, false, ◌++◌, bind_inv, ℕ, ◌<◌, ◌≡◌, refl, ap, sym, append-nil, ◌∙◌, true, some, List, [],
  ◌∷◌, Text, length, All,
}
use rds_dbsync.Pqformat.{Pqformat}
use rds_dbsync.Plugin.{Server, OutputData}
use rds_dbsync.Plugin.Described.{IsStreaming}
use rds_dbsync.Quote.{Escapes}
use rds_dbsync.Stream.Loop.{Event, Receiver}
use rds_dbsync.Receive.{Local, Round, waits, receive_rounds}
use rds_dbsync.Apply.{Reply, command_ok, ApplyState, going, apply_passes}
use rds_dbsync.Apply.Effects.{last_commit}
use rds_dbsync.Apply.Accepted.{run, apply_pass-accepted}
use rds_dbsync.Apply.Rising.{Rising, rows_behind-Rising}
use rds_dbsync.Pipeline.Database.{Database, database, new_rows, log_db, Transactions}
use rds_dbsync.Pipeline.Visible.{Within, table-closed, log_db-Within}
use rds_dbsync.Pipeline.{Sent, entry_sql, log_sql, FitsSent, rounds_of}
use rds_dbsync.Pipeline.Stored.{rounds_of-stored}

-- A target that takes every statement, behind these statements in their order.
unfoldable pub run_all : {T : Type 0} → (T → Text → Reply × T) → T → List Text → T
run_all exec target [] = target
run_all exec target (sql ∷ sqls) = run_all exec (exec target sql).1 sqls

run-new_rows :
    {T : Type 0} (exec : T → Text → Reply × T) (serial : ℕ → ℕ) (target : T) (n : ℕ)
    (sqls : List Text)
    → run exec target (new_rows serial n sqls) ≡ run_all exec target sqls
unfolding new_rows run_all run
run-new_rows exec serial target n [] = refl
run-new_rows exec serial target n (sql ∷ sqls) =
    run-new_rows exec serial (exec target sql).1 (suc n) sqls

new_rows-Rising :
    (serial : ℕ → ℕ) (low n : ℕ) (sqls : List Text)
    → ((m : ℕ) → serial m < serial (suc m))
    → low < serial n
    → Rising low (new_rows serial n sqls)
unfolding new_rows
new_rows-Rising serial low n [] grows h = tt
new_rows-Rising serial low n (sql ∷ sqls) grows h =
    (h, new_rows-Rising serial (serial n) (suc n) sqls grows (grows n))

pub length-log_sql :
    {Datum Tuple : Type 0} (srv : Server Datum Tuple) (esc : Escapes) (log : List (Sent Tuple))
    (sqls : List Text)
    → log_sql srv esc log ≡ some sqls
    → length sqls ≡ length log
unfolding log_sql
length-log_sql srv esc [] sqls h = let e : sqls ≡ [] = cc in rw e refl
length-log_sql srv esc (s ∷ log) sqls h =
    let (sql, h1, rest) = bind_inv (entry_sql srv esc s.entry) _ sqls h in
    let (tail, h2, last) = bind_inv (log_sql srv esc log) _ sqls rest in
    let e : sqls ≡ sql ∷ tail = cc in rw e (ap suc (length-log_sql srv esc log tail h2))

-- The plugin has every switch on; the log is made of whole transactions, whose entries fit the wire
-- and have statements; the local database takes all, its table has no rows, no transaction is open
-- in it, and its numbers grow and lie beyond what is applied; the target takes every statement, and
-- what is applied is stored. Then the plugin writes the log, the receiving thread takes all frames
-- and waits for the next, and a round of the apply thread on the rows that are committed by then
-- comes to its end: the target has run the statements of the log, each once and in order, and the id
-- of the last commit is stored.
pub replicated :
    {Datum Tuple T : Type 0} (srv : Server Datum Tuple) (pq : Pqformat) (esc : Escapes)
    (opts : OutputData) (serial : ℕ → ℕ) (timeout : ℕ) (local : Local) (exec : T → Text → Reply × T)
    (log : List (Sent Tuple)) (sqls : List Text) (r : Receiver) (st : ApplyState T)
    → IsStreaming opts
    → Transactions false log false
    → ((trace : List Event) (e : Event) → local trace e ≡ true)
    → ((n : ℕ) → serial n < serial (suc n))
    → st.apply_id < serial (database serial r.trace).count
    → ((target : T) (sql : Text) → (exec target sql).0 ≡ command_ok)
    → All (FitsSent srv esc) log
    → log_sql srv esc log ≡ some sqls
    → (database serial r.trace).visible ≡ []
    → Within false (database serial r.trace)
    → st.stored ≡ st.apply_id
    → (ts : List Round) × (r' : Receiver) × (st' : ApplyState T) × (rounds_of srv esc pq opts log
        ≡ some ts)
      × (receive_rounds pq esc timeout local ts r ≡ some (waits r'))
      × (apply_passes exec st ((database serial r'.trace).visible ∷ []) ≡ going st')
      × (st'.target ≡ run_all exec st.target sqls)
      × (st'.stored ≡ last_commit st.apply_id (database serial r'.trace).visible)
unfolding apply_passes receive_rounds
replicated srv pq esc opts serial timeout local exec log sqls r st on whole takes grows new accepts
      fits h empty within stored =
    let (ts, r', made, received, rows) =
      rounds_of-stored srv pq esc opts on serial timeout local takes log sqls r fits h in
    let db = database serial r.trace in
    let waiting : receive_rounds pq esc timeout local ts r ≡ some (waits r') =
      ap (λ us. receive_rounds pq esc timeout local us r) (sym (append-nil ts)) ∙ received [] in
    let (closed, all) =
      log_db-Within serial log sqls db false false (length-log_sql srv esc log sqls h) whole
        within in
    let seen : (database serial r'.trace).visible ≡ new_rows serial db.count sqls =
      ap (λ (d : Database). d.visible) rows
      ∙ sym (table-closed (log_db serial log sqls db) closed)
      ∙ all
      ∙ ap (λ t. t ++ new_rows serial db.count sqls) (table-closed db within ∙ empty) in
    let behind =
      rows_behind-Rising st.apply_id [] (new_rows serial db.count sqls) tt
        (new_rows-Rising serial st.apply_id db.count sqls grows new) in
    let (st', passed, same, last) =
      apply_pass-accepted exec accepts st (new_rows serial db.count sqls) stored in
    (
      ts,
      r',
      st',
      made,
      waiting,
      rw (seen, behind, passed) refl,
      same ∙ run-new_rows exec serial st.target db.count sqls,
      rw seen last,
    )
