-- ===== src/Demo/Logged.antt =====
-- What the program of dbsync/demo.cpp writes to its log for the changes of the source.
use rds_dbsync.Base.{
  ℕ, ◌<◌, ◌≡◌, ◌∙◌, refl, ap, sym, subst, false, some, List, [], ◌∷◌, ◌++◌, append-nil,
  append_assoc, Text, codes, length, All, ◌>>=◌, bind_inv,
}
use rds_dbsync.Pqformat.{Pqformat}
use rds_dbsync.Message.{DecodeMessage}
use rds_dbsync.Plugin.{Server, OutputData}
use rds_dbsync.Plugin.Described.{IsStreaming}
use rds_dbsync.Quote.{Escapes}
use rds_dbsync.Sql.{out_put_tuple_to_sql}
use rds_dbsync.Stream.Loop.{Receiver}
use rds_dbsync.Receive.{Round, flush}
use rds_dbsync.Receive.Start.{standby_message_timeout}
use rds_dbsync.Log.{Answer, message_text}
use rds_dbsync.Log.Writes.{Takes, out_put_decode_message-logged}
use rds_dbsync.Pipeline.{
  Sent, frame_round, entry_message, entry_sql, plugin_bytes, rounds_of, log_sql, FitsSent,
}
use rds_dbsync.Pipeline.Delivered.{statement_inv, FitsEntry-Read, exec_logical_decoder-body}
use rds_dbsync.Demo.{DemoRound, waits, demo_rounds}

-- The rounds with what the log answers in each.
unfoldable pub answered : List Round → List (List Answer) → List DemoRound
answered [] answers = []
answered (t ∷ ts) [] = []
answered (t ∷ ts) (a ∷ answers) =
    record { time_to_abort = t.time_to_abort; turns = t.turns; answers = a } ∷ answered ts answers

-- The log takes at least a byte in each write, and there are enough writes for each statement.
abbrev pub Served : List Text → List (List Answer) → Type 0
Served [] answers = Unit
Served (sql ∷ sqls) [] = ⊥
Served (sql ∷ sqls) (a ∷ answers) = All Takes a × (length sql < length a) × Served sqls answers

-- A line for each statement.
unfoldable pub lines : List Text → Text
lines [] = []
lines (sql ∷ sqls) = (sql ++ codes "\n") ++ lines sqls

message_text-sql :
    (esc : Escapes) (msg : DecodeMessage) (rc : ℕ) (sql : Text)
    → out_put_tuple_to_sql esc msg ≡ some (rc, sql)
    → message_text esc false msg ≡ some sql
unfolding message_text
message_text-sql esc msg rc sql h = rw (h, ◌>>=◌) refl

module _ {Datum Tuple : Type 0} (srv : Server Datum Tuple) (pq : Pqformat) (esc : Escapes)
    (opts : OutputData) (on : IsStreaming opts) where
  round-logged :
      (s : Sent Tuple) (sql : Text) (a : List Answer) (r : Receiver) (file : Text)
      → FitsSent srv esc s
      → entry_sql srv esc s.entry ≡ some sql
      → All Takes a
      → length sql < length a
      → (bytes : List ℕ) × (r' : Receiver) × (plugin_bytes srv esc pq opts s.entry ≡ some bytes)
        × ((ts : List DemoRound)
            → demo_rounds pq esc false
                (record {
                  time_to_abort = false;
                  turns = (frame_round s.start_lsn s.end_lsn s.send_time s.time bytes).turns;
                  answers = a;
                }
                  ∷ ts)
                r
                file
              ≡ demo_rounds pq esc false ts r' (file ++ (sql ++ codes "\n")))
  unfolding demo_rounds
  round-logged s sql a r file (hs, he, ht, fits) h takes enough =
      let (bytes, msg, n, written, described, read, whole) =
        FitsEntry-Read srv pq esc opts on s.entry fits in
      let (r1, got, same, q1) =
        exec_logical_decoder-body srv pq esc opts on (λ n. n) standby_message_timeout r s.start_lsn
          s.end_lsn s.send_time s.time bytes msg n hs he ht read whole in
      let (msg', d, w) = bind_inv (entry_message srv esc s.entry) _ sql h in
      let (rc, statement) = statement_inv (out_put_tuple_to_sql esc msg') sql w in
      let m : r1.hander.msg ≡ msg' = cc in
      let text : out_put_tuple_to_sql esc r1.hander.msg ≡ some (rc, sql) =
        ap (λ x. out_put_tuple_to_sql esc x) m ∙ statement in
      let (rest, put) =
        out_put_decode_message-logged esc false r1.hander.msg sql file a
          (message_text-sql esc r1.hander.msg rc sql text) takes enough in
      (bytes, flush r1, written, λ ts. rw (got, put) refl)

  -- The plugin has every switch on, the entries of a log fit the wire and have statements, and the
  -- file of the log takes at least one byte in each write. Then the plugin writes the log, the
  -- program takes all frames and waits for the next, and its file has one line more for each
  -- entry, its statement, in their order.
  pub demo_rounds-logged :
      (log : List (Sent Tuple)) (sqls : List Text) (answers : List (List Answer)) (r : Receiver)
      (file : Text)
      → All (FitsSent srv esc) log
      → log_sql srv esc log ≡ some sqls
      → Served sqls answers
      → (ts : List Round) × (r' : Receiver) × (rounds_of srv esc pq opts log ≡ some ts)
        × (demo_rounds pq esc false (answered ts answers) r file
            ≡ some (waits r' (file ++ lines sqls)))
  unfolding demo_rounds rounds_of log_sql answered lines
  demo_rounds-logged [] sqls answers r file fits h served =
      let e : sqls ≡ [] = cc in ([], r, refl, rw (e, append-nil) refl)
  demo_rounds-logged (s ∷ log) sqls [] r file (fit, fits) h served =
      let (sql, h1, rest) = bind_inv (entry_sql srv esc s.entry) _ sqls h in
      let (tail, h2, last) = bind_inv (log_sql srv esc log) _ sqls rest in
      let e : sqls ≡ sql ∷ tail = cc in absurd (subst (λ x. Served x []) e served)
  demo_rounds-logged (s ∷ log) sqls (a ∷ answers) r file (fit, fits) h served =
      let (sql, h1, rest) = bind_inv (entry_sql srv esc s.entry) _ sqls h in
      let (tail, h2, last) = bind_inv (log_sql srv esc log) _ sqls rest in
      let e : sqls ≡ sql ∷ tail = cc in
      let (takes, enough, later) = subst (λ x. Served x (a ∷ answers)) e served in
      let (bytes, r1, written, step) = round-logged s sql a r file fit h1 takes enough in
      let (ts, r2, made, run) =
        demo_rounds-logged log tail answers r1 (file ++ (sql ++ codes "\n")) fits h2 later in
      (
        frame_round s.start_lsn s.end_lsn s.send_time s.time bytes ∷ ts,
        r2,
        rw (written, made) refl,
        step (answered ts answers)
            ∙ run
            ∙ ap (λ f. some (waits r2 f)) (append_assoc file (sql ++ codes "\n") (lines tail))
            ∙ ap (λ x. some (waits r2 (file ++ lines x))) (sym e),
      )
