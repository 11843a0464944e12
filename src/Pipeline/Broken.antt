-- ===== src/Pipeline/Broken.antt =====
-- A stream that breaks within a transaction, as the receiving thread (dbsync/pgsync.c 713-789)
-- takes it.
use rds_dbsync.Base.{
  ◌<◌, arith, false, bind_inv, ℕ, ◌≡◌, ◌∙◌, refl, ap, sym, true, false, some, List, [], ◌∷◌, ◌++◌,
  map, append-nil, Text, length, All,
}
use mathlib.Core.List.{map-append}
use rds_dbsync.Pqformat.{Pqformat}
use rds_dbsync.Plugin.{Server, OutputData}
use rds_dbsync.Plugin.Described.{IsStreaming}
use rds_dbsync.Quote.{Escapes}
use rds_dbsync.Stream.Loop.{Event, started, Receiver, lost, exec_turns, exec_logical_decoder}
use rds_dbsync.Receive.{Local, Round, waits, add_event, receive_rounds}
use rds_dbsync.Pipeline.{Sent, entry_sql, log_sql, FitsSent, rounds_of}
use rds_dbsync.Pipeline.Database.{Database, database, new_rows, log_db, Transactions}
use rds_dbsync.Pipeline.Visible.{
  Within, table-closed, sql_of, sqls-new_rows, log_db-Within, log_db-again, Transactions-append,
  opened-entry,
}
use rds_dbsync.Pipeline.Applied.{length-log_sql}
use rds_dbsync.Pipeline.Stored.{rounds_of-stored}

-- The round in which the connection is lost.
abbrev pub lost_round : ℕ → Round
lost_round time = record {
  time_to_abort = false;
  turns =
      record {
        time_to_stop = false;
        now = time;
        sends = true;
        poll = lost;
        then_now = time;
        then_sends = true;
      }
      ∷ [];
}

All-append : {A : Type 0} (P : A → Type 0) (xs ys : List A) → All P xs → All P ys → All P (xs ++ ys)
All-append P [] ys h k = k
All-append P (x ∷ xs) ys (p, h) k = (p, All-append P xs ys h k)

entries : {A : Type 0} (xs ys : List A) → 0 < length xs → 0 < length (xs ++ ys)
entries [] ys h = ground (arith, h)
entries (x ∷ xs) ys h = omega arith

log_sql-append :
    {Datum Tuple : Type 0} (srv : Server Datum Tuple) (esc : Escapes) (xs ys : List (Sent Tuple))
    (first others : List Text)
    → log_sql srv esc xs ≡ some first
    → log_sql srv esc ys ≡ some others
    → log_sql srv esc (xs ++ ys) ≡ some (first ++ others)
unfolding log_sql
log_sql-append srv esc [] ys first others h k = let e : first ≡ [] = cc in rw (e, k) refl
log_sql-append srv esc (s ∷ xs) ys first others h k =
    let (sql, h1, rest) = bind_inv (entry_sql srv esc s.entry) _ first h in
    let (tail, h2, last) = bind_inv (log_sql srv esc xs) _ first rest in
    let e : first ≡ sql ∷ tail = cc in
    rw (e, h1, log_sql-append srv esc xs ys tail others h2 k) refl

module _ (pq : Pqformat) (esc : Escapes) (timeout : ℕ) (local : Local) where
  -- The thread starts the stream again, and the table keeps what it has.
  lost_round_lem :
      (time : ℕ) (us : List Round) (r : Receiver)
      → receive_rounds pq esc timeout local (lost_round time ∷ us) r
        ≡ receive_rounds pq esc timeout local us (add_event (started r.hander.startpos) r)
  unfolding receive_rounds exec_logical_decoder exec_turns
  lost_round_lem time us r = refl

-- A log of whole transactions breaks off within one: the plugin writes its first entries, up to a
-- place where a transaction is open, the connection is lost, and the plugin writes the log from its
-- start on. No transaction is open at first and the table has no rows; the local database takes
-- all. Then the thread takes all of it, and behind the end of the log another connection sees the
-- statements of the first entries twice, and then the others: what was stored before the break is
-- neither rolled back nor left out the second time.
pub queued_twice :
    {Datum Tuple : Type 0} (srv : Server Datum Tuple) (pq : Pqformat) (esc : Escapes)
    (opts : OutputData) (serial : ℕ → ℕ) (timeout : ℕ) (local : Local)
    (front rest : List (Sent Tuple)) (first others : List Text) (time : ℕ) (r : Receiver)
    → IsStreaming opts
    → ((trace : List Event) (e : Event) → local trace e ≡ true)
    → Transactions false front true
    → Transactions true rest false
    → All (FitsSent srv esc) front
    → All (FitsSent srv esc) rest
    → log_sql srv esc front ≡ some first
    → log_sql srv esc rest ≡ some others
    → (database serial r.trace).visible ≡ []
    → Within false (database serial r.trace)
    → (ts : List Round) × (us : List Round) × (r' : Receiver) × (rounds_of srv esc pq opts front
        ≡ some ts)
      × (rounds_of srv esc pq opts (front ++ rest) ≡ some us)
      × (receive_rounds pq esc timeout local (ts ++ lost_round time ∷ us) r ≡ some (waits r'))
      × (map sql_of (database serial r'.trace).visible ≡ first ++ (first ++ others))
unfolding database receive_rounds
queued_twice srv pq esc opts serial timeout local front rest first others time r on takes t t' fits
      fits' h h' empty within =
    let log = front ++ rest in
    let sqls = first ++ others in
    let whole = log_sql-append srv esc front rest first others h h' in
    let (ts, r1, made, run, q1) =
      rounds_of-stored srv pq esc opts on serial timeout local takes front first r fits h in
    let r2 = add_event (started r1.hander.startpos) r1 in
    let (us, r3, made', run', q2) =
      rounds_of-stored srv pq esc opts on serial timeout local takes log sqls r2
        (All-append (FitsSent srv esc) front rest fits fits') whole in
    let db = database serial r.trace in
    let db1 = log_db serial front first db in
    let db2 = log_db serial log sqls db1 in
    let (open_, rows1) =
      log_db-Within serial front first db false true (length-log_sql srv esc front first h) t
        within in
    let (closed, rows2) =
      log_db-again serial log sqls db1 (length-log_sql srv esc log sqls whole)
        (Transactions-append front rest false true false t t')
        (entries front rest (opened-entry front t)) in
    let seen : (database serial r3.trace).visible ≡ db2.visible =
      ap (λ (d : Database). d.visible) (q2 ∙ ap (log_db serial log sqls) q1) in
    (
      ts,
      us,
      r3,
      made,
      made',
      run (lost_round time ∷ us)
          ∙ lost_round_lem pq esc timeout local time us r1
          ∙ ap (λ vs. receive_rounds pq esc timeout local vs r2) (sym (append-nil us))
          ∙ run' [],
      ap (map sql_of) (
            seen
            ∙ sym (table-closed db2 closed)
            ∙ rows2
            ∙ ap (λ rs. rs ++ new_rows serial db1.count sqls)
                (rows1
                  ∙ ap (λ rs. rs ++ new_rows serial db.count first)
                      (table-closed db within ∙ empty)))
          ∙ map-append sql_of (new_rows serial db.count first) (new_rows serial db1.count sqls)
          ∙ ap (λ xs. xs ++ map sql_of (new_rows serial db1.count sqls))
              (sqls-new_rows serial db.count first)
          ∙ ap (λ xs. first ++ xs) (sqls-new_rows serial db1.count sqls),
    )
