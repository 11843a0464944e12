-- ===== src/Receive/Flushed.antt =====
-- The positions that the source is told.
use rds_dbsync.Base.{
  ◌≡◌, sym, subst, inr, str_eq, map_option, ℕ, inl, refl, Bool, true, false, Option, none, some,
  List, [], ◌∷◌, Text, codes, ◌==◌, if◌then◌else◌,
}
use rds_dbsync.Pqformat.{Pqformat}
use rds_dbsync.Message.{msgkind_begin, msgkind_commit}
use rds_dbsync.Quote.{Escapes}
use rds_dbsync.Sql.{out_put_tuple_to_sql}
use rds_dbsync.Stream.Loop.{
  executed, inserted, refused, started, Receiver, Result, message, waiting, no_message, exec_turns,
  exec_logical_decoder,
}
use rds_dbsync.Receive
use rds_dbsync.Receive.{
  Local, Stored, stored, exits, then_stored, add_event, flush, execute_if, insert_row, store_sql,
  Round, ThreadOutcome, stopped, waits, receive_rounds, behind_store, behind_sql, behind_result,
  round,
}
use rds_dbsync.Sql.Texts.{NotCommit, text_of, out_put_tuple_to_sql-NotCommit}
use rds_dbsync.Receive.Sound.{AllTold, IsSound, ResultSound, exec_turns-ResultSound}

module _ (first : ℕ) where
  abbrev StoredSound : Stored → Type 0
  StoredSound (stored r) = IsSound first r
  StoredSound (exits r) = AllTold first r.trace

  abbrev pub OutcomeSound : Option ThreadOutcome → Type 0
  OutcomeSound none = Unit
  OutcomeSound (some (stopped r)) = AllTold first r.trace
  OutcomeSound (some (waits r)) = AllTold first r.trace
  OutcomeSound (some (Receive.failed r)) = AllTold first r.trace

  -- What holds where the thread goes on, and of the packets in any case.
  abbrev Behind : (Receiver → Type 0) → Stored → Type 0
  Behind P (stored r) = P r
  Behind P (exits r) = AllTold first r.trace

  then_stored-StoredSound :
      (P : Receiver → Type 0) (o : Stored) (f : Receiver → Stored)
      → Behind P o
      → ((r : Receiver) → P r → StoredSound (f r))
      → StoredSound (then_stored o f)
  then_stored-StoredSound P (stored r) f h k = k r h
  then_stored-StoredSound P (exits r) f h k = h

  if-Behind :
      (P : Receiver → Type 0) (c : Bool) (a b : Stored)
      → Behind P a
      → Behind P b
      → Behind P (if c then a else b)
  if-Behind P true a b h k = h
  if-Behind P false a b h k = k

  module _ (local : Local) where
    execute_if-StoredSound :
        (c : Bool) (sql : Text) (r : Receiver)
        → IsSound first r
        → Behind (IsSound first) (execute_if local c sql r)
    execute_if-StoredSound c sql r ((p, ended), a) =
        if-Behind (IsSound first) c _ (stored r)
          (if-Behind (IsSound first) (local r.trace (executed sql))
            (stored (add_event (executed sql) r)) (exits (add_event (refused sql) r))
            ((p, inr ended), a) a)
          ((p, ended), a)

    -- The position of the row, whose transaction may be open.
    insert_row-Behind :
        (sql : Text) (r : Receiver)
        → IsSound first r
        → Behind
            (λ r'. r' ≡ flush (add_event (inserted sql r.hander.recvpos) r))
            (insert_row local sql r)
    insert_row-Behind sql r (s, a) =
        if-Behind (λ r'. r' ≡ flush (add_event (inserted sql r.hander.recvpos) r))
          (local r.trace (inserted sql r.hander.recvpos))
          (stored (flush (add_event (inserted sql r.hander.recvpos) r)))
          (exits (add_event (refused sql) r)) refl a

    -- The END behind a row; none where the row is not that of a commit.
    end_if-StoredSound :
        (c : Bool) (sql : Text) (r : Receiver)
        → (c ≡ false → str_eq sql (codes "commit;") ≡ false)
        → IsSound first r
        → StoredSound
            (execute_if local c (codes "END") (flush (add_event (inserted sql r.hander.recvpos) r)))
    end_if-StoredSound true sql r text ((p, ended), a) =
        let r2 = flush (add_event (inserted sql r.hander.recvpos) r) in
        if-Behind (IsSound first) (local r2.trace (executed (codes "END")))
          (stored (add_event (executed (codes "END")) r2))
          (exits (add_event (refused (codes "END")) r2)) ((inl refl, inl refl), a) a
    end_if-StoredSound false sql r text ((p, ended), a) = ((inl refl, (text refl, ended)), a)

    store_sql-StoredSound :
        (kind : ℕ) (sql : Text) (r : Receiver)
        → ((kind == msgkind_commit) ≡ false → str_eq sql (codes "commit;") ≡ false)
        → IsSound first r
        → StoredSound (store_sql local kind sql r)
    unfolding store_sql
    store_sql-StoredSound kind sql r text h =
        let end_if : Receiver → Stored =
          λ r2. execute_if local (kind == msgkind_commit) (codes "END") r2 in
        then_stored-StoredSound (IsSound first)
          (execute_if local (kind == msgkind_begin) (codes "BEGIN") r)
          (λ r1. then_stored (insert_row local sql r1) end_if)
          (execute_if-StoredSound (kind == msgkind_begin) (codes "BEGIN") r h)
          (λ r1 h1.
            then_stored-StoredSound
              (λ r2. r2 ≡ flush (add_event (inserted sql r1.hander.recvpos) r1))
              (insert_row local sql r1) end_if (insert_row-Behind sql r1 h1)
              (λ r2 e.
                subst (λ x. StoredSound (end_if x)) (sym e)
                  (end_if-StoredSound (kind == msgkind_commit) sql r1 text h1)))

  module _ (pq : Pqformat) (esc : Escapes) (timeout : ℕ) (local : Local) where
    behind_store-OutcomeSound :
        (o : Stored) (next : Receiver → Option ThreadOutcome)
        → StoredSound o
        → ((r : Receiver) → IsSound first r → OutcomeSound (next r))
        → OutcomeSound (behind_store pq esc timeout local o next)
    behind_store-OutcomeSound (stored r) next h k = k r h
    behind_store-OutcomeSound (exits r) next h k = h

    behind_sql-OutcomeSound :
        (o : Option (ℕ × Text)) (r : Receiver) (next : Receiver → Option ThreadOutcome)
        → ((r.hander.msg.kind == msgkind_commit) ≡ false → NotCommit (map_option text_of o))
        → IsSound first r
        → ((r' : Receiver) → IsSound first r' → OutcomeSound (next r'))
        → OutcomeSound (behind_sql pq esc timeout local o r next)
    behind_sql-OutcomeSound none r next text h k = tt
    behind_sql-OutcomeSound (some (rc, sql)) r next text h k =
        behind_store-OutcomeSound (store_sql local r.hander.msg.kind sql r) next
          (store_sql-StoredSound local r.hander.msg.kind sql r text h) k

    behind_result-OutcomeSound :
        (o : Option Result) (next : Receiver → Option ThreadOutcome)
        → ResultSound first o
        → ((r : Receiver) → IsSound first r → OutcomeSound (next r))
        → OutcomeSound (behind_result pq esc timeout local o next)
    behind_result-OutcomeSound none next h k = tt
    behind_result-OutcomeSound (some (waiting r)) next h k = h.1
    behind_result-OutcomeSound (some (no_message closed r)) next h k =
        k (add_event (started r.hander.startpos) r) h
    behind_result-OutcomeSound (some (message r)) next h k =
        behind_sql-OutcomeSound (out_put_tuple_to_sql esc r.hander.msg) r next
          (out_put_tuple_to_sql-NotCommit esc r.hander.msg) h k

    if-OutcomeSound :
        (c : Bool) (a b : Option ThreadOutcome)
        → OutcomeSound a
        → OutcomeSound b
        → OutcomeSound (if c then a else b)
    if-OutcomeSound true a b h k = h
    if-OutcomeSound false a b h k = k

    -- Whatever is received, however often the stream breaks, and whatever the local database refuses:
    -- each packet that was sent tells the source as flushed only the position of the start or that of
    -- a row which was inserted before the packet, and behind the row of every commit that was
    -- inserted by then an END was executed.
    pub receive_rounds-OutcomeSound :
        (ts : List Round) (r : Receiver)
        → IsSound first r
        → OutcomeSound (receive_rounds pq esc timeout local ts r)
    unfolding receive_rounds exec_logical_decoder
    receive_rounds-OutcomeSound [] r h = h.1
    receive_rounds-OutcomeSound (t ∷ ts) r h =
        if-OutcomeSound t.time_to_abort (some (stopped r))
          (behind_result pq esc timeout local (exec_turns pq timeout t.turns false r)
            (λ r'. receive_rounds pq esc timeout local ts r'))
          h.1
          (behind_result-OutcomeSound (exec_turns pq timeout t.turns false r)
            (λ r'. receive_rounds pq esc timeout local ts r')
            (exec_turns-ResultSound first pq timeout t.turns false r h)
            (λ r' h'. receive_rounds-OutcomeSound ts r' h'))
