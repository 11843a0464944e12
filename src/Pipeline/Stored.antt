-- ===== src/Pipeline/Stored.antt =====
-- What the receiving thread stores of a log that the plugin writes.
use rds_dbsync.Base.{
  sym, str_eq, if◌then◌else◌, Option, none, map_option, ◌++◌, ℕ, ◌≡◌, ◌∙◌, refl, ap, Bool, true,
  false, some, List, [], ◌∷◌, Text, codes, ◌==◌, bind_inv, All,
}
use rds_dbsync.Pqformat.{Pqformat}
use rds_dbsync.Message.{DecodeMessage, msgkind_begin, msgkind_commit}
use rds_dbsync.Plugin.{Server, OutputData}
use rds_dbsync.Plugin.Described.{IsStreaming, describe}
use rds_dbsync.Wire.{RowMessage, RowChange, insert, update, delete, message_of, change_kind}
use rds_dbsync.Quote.{Escapes}
use rds_dbsync.Sql.{out_put_tuple_to_sql}
use rds_dbsync.Stream.Loop.{Event, executed, inserted, Receiver}
use rds_dbsync.Receive.{
  Local, stored, add_event, flush, execute_if, store_sql, Round, receive_rounds,
}
use rds_dbsync.Pipeline.{
  Entry, begun, changed, committed, Sent, begin_message, commit_message, frame_round, entry_message,
  entry_sql, plugin_bytes, rounds_of, log_sql, FitsSent,
}
use rds_dbsync.Pipeline.Database.{
  Database, database, begin_db, end_db, insert_db, store_db, entry_db, log_db,
}
use rds_dbsync.Pipeline.Delivered.{statement_inv, FitsEntry-Read, exec_logical_decoder-body}

-- The local database behind what the receiver did.
abbrev pub database_of : (ℕ → ℕ) → Receiver → Database
database_of serial r = database serial r.trace

-- The kind of a row message.
row_kind :
    (m : RowMessage)
    → ((message_of m).kind == msgkind_begin ≡ false)
      × ((message_of m).kind == msgkind_commit ≡ false)
unfolding message_of change_kind
row_kind m = kinds m.change
  where
    kinds :
        (c : RowChange)
        → (change_kind c == msgkind_begin ≡ false) × (change_kind c == msgkind_commit ≡ false)
    kinds (insert row) = (refl, refl)
    kinds (update old row) = (refl, refl)
    kinds (delete old) = (refl, refl)

changed_kind :
    (o : Option RowMessage) (msg : DecodeMessage)
    → map_option message_of o ≡ some msg
    → (msg.kind == msgkind_begin ≡ false) × (msg.kind == msgkind_commit ≡ false)
changed_kind none msg h = cc
changed_kind (some m) msg h = let e : message_of m ≡ msg = cc in rw (sym e) (row_kind m)

store_db-entry_db :
    {Datum Tuple : Type 0} (srv : Server Datum Tuple) (esc : Escapes) (serial : ℕ → ℕ)
    (e : Entry Tuple) (msg : DecodeMessage) (sql : Text) (db : Database)
    → entry_message srv esc e ≡ some msg
    → store_db serial msg.kind sql db ≡ entry_db serial e sql db
store_db-entry_db srv esc serial (begun txn) msg sql db h =
    let e : begin_message txn ≡ msg = cc in sym (ap (λ x. store_db serial x.kind sql db) e)
store_db-entry_db srv esc serial (committed txn commit_lsn) msg sql db h =
    let e : commit_message txn commit_lsn ≡ msg = cc in
    sym (ap (λ x. store_db serial x.kind sql db) e)
store_db-entry_db srv esc serial (changed rel change) msg sql db h =
    let kinds = changed_kind (describe srv rel change) msg h in rw (kinds.0, kinds.1) refl

module _ {Datum Tuple : Type 0} (srv : Server Datum Tuple) (pq : Pqformat) (esc : Escapes)
    (opts : OutputData) (on : IsStreaming opts) where
  module _ (serial : ℕ → ℕ) (timeout : ℕ) where
    module _ (local : Local) (takes : (trace : List Event) (e : Event) → local trace e ≡ true) where
      execute_if-begin :
          (c : Bool) (r : Receiver)
          → (r' : Receiver) × (execute_if local c (codes "BEGIN") r ≡ stored r')
            × (r'.hander ≡ r.hander)
            × (database_of serial r'
                ≡ (if c then begin_db (database_of serial r) else database_of serial r))
      unfolding database str_eq
      execute_if-begin true r = (
        add_event (executed (codes "BEGIN")) r,
        rw (takes r.trace (executed (codes "BEGIN"))) refl,
        refl,
        refl,
      )
      execute_if-begin false r = (r, refl, refl, refl)

      execute_if-end :
          (c : Bool) (r : Receiver)
          → (r' : Receiver) × (execute_if local c (codes "END") r ≡ stored r')
            × (database_of serial r'
                ≡ (if c then end_db (database_of serial r) else database_of serial r))
      unfolding database str_eq
      execute_if-end true r = (
        add_event (executed (codes "END")) r,
        rw (takes r.trace (executed (codes "END"))) refl,
        refl,
      )
      execute_if-end false r = (r, refl, refl)

      store_sql-stored :
          (kind : ℕ) (sql : Text) (r : Receiver)
          → (r' : Receiver) × (store_sql local kind sql r ≡ stored r')
            × (database_of serial r' ≡ store_db serial kind sql (database_of serial r))
      unfolding store_sql database
      store_sql-stored kind sql r =
          let (r1, e1, h1, q1) = execute_if-begin (kind == msgkind_begin) r in
          let r2 : Receiver = flush (add_event (inserted sql r1.hander.recvpos) r1) in
          let (r3, e3, q3) = execute_if-end (kind == msgkind_commit) r2 in
          (
            r3,
            rw (e1, takes r1.trace (inserted sql r1.hander.recvpos)) e3,
            q3
                ∙ ap
                    (λ db.
                      if kind == msgkind_commit
                      then end_db (insert_db serial sql db)
                      else insert_db serial sql db)
                    q1,
          )

      -- One frame.
      round-stored :
          (s : Sent Tuple) (sql : Text) (r : Receiver)
          → FitsSent srv esc s
          → entry_sql srv esc s.entry ≡ some sql
          → (bytes : List ℕ) × (r' : Receiver) × (plugin_bytes srv esc pq opts s.entry ≡ some bytes)
            × ((ts : List Round)
                → receive_rounds pq esc timeout local
                    (frame_round s.start_lsn s.end_lsn s.send_time s.time bytes ∷ ts)
                    r
                  ≡ receive_rounds pq esc timeout local ts r')
            × (database_of serial r' ≡ entry_db serial s.entry sql (database_of serial r))
      unfolding receive_rounds
      round-stored s sql r (hs, he, ht, fits) h =
          let (bytes, msg, n, written, described, read, whole) =
            FitsEntry-Read srv pq esc opts on s.entry fits in
          let (r1, got, same, q1) =
            exec_logical_decoder-body srv pq esc opts on serial timeout r s.start_lsn s.end_lsn
              s.send_time s.time bytes msg n hs he ht read whole in
          let (msg', d, w) = bind_inv (entry_message srv esc s.entry) _ sql h in
          let (r2, e2, q2) = store_sql-stored r1.hander.msg.kind sql r1 in
          let (rc, statement) = statement_inv (out_put_tuple_to_sql esc msg') sql w in
          let m : r1.hander.msg ≡ msg' = cc in
          let text : out_put_tuple_to_sql esc r1.hander.msg ≡ some (rc, sql) =
            ap (λ x. out_put_tuple_to_sql esc x) m ∙ statement in
          (
            bytes,
            r2,
            written,
            λ ts. rw (got, text, e2) refl,
            q2
                ∙ ap (λ db. store_db serial r1.hander.msg.kind sql db) q1
                ∙ ap (λ x. store_db serial x.kind sql (database_of serial r)) m
                ∙ store_db-entry_db srv esc serial s.entry msg' sql (database_of serial r) d,
          )

      -- With a plugin that has every switch on and a local database that takes all, whatever the
      -- plugin writes for a log of entries with statements is received, their statements are
      -- stored in their order, and the thread goes on to the rounds behind.
      pub rounds_of-stored :
          (log : List (Sent Tuple)) (sqls : List Text) (r : Receiver)
          → All (FitsSent srv esc) log
          → log_sql srv esc log ≡ some sqls
          → (ts : List Round) × (r' : Receiver) × (rounds_of srv esc pq opts log ≡ some ts)
            × ((us : List Round)
                → receive_rounds pq esc timeout local (ts ++ us) r
                  ≡ receive_rounds pq esc timeout local us r')
            × (database_of serial r' ≡ log_db serial log sqls (database_of serial r))
      unfolding rounds_of log_db log_sql
      rounds_of-stored [] sqls r fits h = ([], r, refl, λ us. refl, refl)
      rounds_of-stored (s ∷ log) sqls r (fit, fits) h =
          let (sql, h1, rest) = bind_inv (entry_sql srv esc s.entry) _ sqls h in
          let (tail, h2, last) = bind_inv (log_sql srv esc log) _ sqls rest in
          let (bytes, r1, written, step, q1) = round-stored s sql r fit h1 in
          let (ts, r2, made, run, q2) = rounds_of-stored log tail r1 fits h2 in
          let e : sqls ≡ sql ∷ tail = cc in
          (
            frame_round s.start_lsn s.end_lsn s.send_time s.time bytes ∷ ts,
            r2,
            rw (written, made) refl,
            λ us. step (ts ++ us) ∙ run us,
            rw e (q2 ∙ ap (λ db. log_db serial log tail db) q1),
          )
