-- ===== src/Apply/Once.antt =====
-- The outer loop of the apply thread (dbsync/pgsync.c) on a queue that grows.
use rds_dbsync.Base.{
  ℕ, ◌<◌, ◌≤◌, ◌≡◌, refl, ap, ◌∙◌, subst, sym, List, [], ◌∷◌, ◌++◌, arith, codes, if◌then◌else◌,
  str_eq_refl, str_eq, All, Text,
}
use rds_dbsync.Apply.{
  Reply, command_ok, QueueRow, ApplyState, going, apply_pass, rows_behind, apply_passes,
}
use rds_dbsync.Apply.Rising.{Rising, rows_behind-Rising}
use rds_dbsync.Apply.Effects.{last_commit, apply_pass-last_commit}
use rds_dbsync.Apply.Accepted.{run, apply_pass-accepted}

-- What is added to the queue between two rounds: rows, and behind them the commit with this id.
pub record Batch : Type 0 where
  pub front : List QueueRow
  pub last : ℕ

abbrev pub batch_rows : Batch → List QueueRow
batch_rows b = b.front ++ record { id = b.last; sql = codes "commit;" } ∷ []

abbrev pub all_rows : List Batch → List QueueRow
all_rows [] = []
all_rows (b ∷ bs) = batch_rows b ++ all_rows bs

-- The table at each round.
abbrev pub tables : List QueueRow → List Batch → List (List QueueRow)
tables table [] = []
tables table (b ∷ bs) = (table ++ batch_rows b) ∷ tables (table ++ batch_rows b) bs

-- The ids grow from row to row and from batch to batch.
abbrev pub Numbered : ℕ → List Batch → Type 0
Numbered k [] = Unit
Numbered k (b ∷ bs) = Rising k (batch_rows b) × Numbered b.last bs

abbrev pub last_of : ℕ → List Batch → ℕ
last_of k [] = k
last_of k (b ∷ bs) = last_of b.last bs

last_commit-commit :
    (id k : ℕ) (rows : List QueueRow)
    → last_commit id (rows ++ record { id = k; sql = codes "commit;" } ∷ []) ≡ k
unfolding last_commit
last_commit-commit id k [] = rw (str_eq_refl (codes "commit;")) refl
last_commit-commit id k (row ∷ rows) =
    last_commit-commit (if str_eq row.sql (codes "commit;") then row.id else id) k rows

All-old :
    (k high : ℕ) (xs ys : List QueueRow)
    → k ≤ high
    → All (λ row. row.id ≤ k) xs
    → All (λ row. row.id ≤ high) ys
    → All (λ row. row.id ≤ high) (xs ++ ys)
All-old k high [] ys h old new = new
All-old k high (row ∷ xs) ys h (o, old) new = (omega arith, All-old k high xs ys h old new)

-- No row of a batch is behind its commit.
Rising-batch :
    (k last : ℕ) (rows : List QueueRow)
    → Rising k (rows ++ record { id = last; sql = codes "commit;" } ∷ [])
    → (k < last)
      × All (λ row. row.id ≤ last) (rows ++ record { id = last; sql = codes "commit;" } ∷ [])
Rising-batch k last [] (up, r) = (up, (omega arith, tt))
Rising-batch k last (row ∷ rows) (up, r) =
    let (above, old) = Rising-batch row.id last rows r in (omega arith, (omega arith, old))

module _ {T : Type 0} (exec : T → Text → Reply × T) where
  pub run-append :
      (target : T) (xs ys : List QueueRow)
      → run exec target (xs ++ ys) ≡ run exec (run exec target xs) ys
  unfolding run
  run-append target [] ys = refl
  run-append target (row ∷ xs) ys = run-append (exec target row.sql).1 xs ys

  module _ (accepts : (target : T) (sql : Text) → (exec target sql).0 ≡ command_ok) where
    -- One round takes the new batch.
    pass_batch :
        (st : ApplyState T) (table : List QueueRow) (b : Batch)
        → st.stored ≡ st.apply_id
        → All (λ row. row.id ≤ st.apply_id) table
        → Rising st.apply_id (batch_rows b)
        → (st' : ApplyState T) × (apply_pass exec st
              (rows_behind st.apply_id (table ++ batch_rows b))
            ≡ going st')
          × (st'.target ≡ run exec st.target (batch_rows b))
          × (st'.stored ≡ b.last)
          × (st'.apply_id ≡ b.last)
    pass_batch st table b h old new =
        let (st', e, same, stored) = apply_pass-accepted exec accepts st (batch_rows b) h in
        let last = last_commit-commit st.apply_id b.last b.front in
        (
          st',
          rw (rows_behind-Rising st.apply_id table (batch_rows b) old new) e,
          same,
          stored ∙ last,
          (apply_pass-last_commit exec st st' (batch_rows b) h e).1 ∙ last,
        )

    -- The target takes every statement, everything is stored at the start, and the rows in the
    -- queue are all applied. Then, however the rest of the queue is dealt out to the rounds of the
    -- loop, in batches that end in a commit and with ids that grow from row to row, the loop goes
    -- on through all rounds: the target has run each new row once, in order, and the id of the last
    -- commit is stored.
    pub apply_passes-once :
        (st : ApplyState T) (table : List QueueRow) (bs : List Batch)
        → st.stored ≡ st.apply_id
        → All (λ row. row.id ≤ st.apply_id) table
        → Numbered st.apply_id bs
        → (st' : ApplyState T) × (apply_passes exec st (tables table bs) ≡ going st')
          × (st'.target ≡ run exec st.target (all_rows bs))
          × (st'.stored ≡ last_of st.apply_id bs)
    unfolding apply_passes run
    apply_passes-once st table [] h old n = (st, refl, refl, h)
    apply_passes-once st table (b ∷ bs) h old (new, n) =
        let (st1, e1, same1, stored1, id1) = pass_batch st table b h old new in
        let (up, within) = Rising-batch st.apply_id b.last b.front new in
        let older = All-old st.apply_id b.last table (batch_rows b) (omega arith) old within in
        let (st2, e2, same2, stored2) =
          apply_passes-once st1 (table ++ batch_rows b) bs (stored1 ∙ sym id1)
            (subst (λ k. All (λ row. row.id ≤ k) (table ++ batch_rows b)) (sym id1) older)
            (subst (λ k. Numbered k bs) (sym id1) n) in
        (
          st2,
          rw e1 e2,
          same2
              ∙ ap (λ target. run exec target (all_rows bs)) same1
              ∙ sym (run-append st.target (batch_rows b) (all_rows bs)),
          stored2 ∙ ap (λ k. last_of k bs) id1,
        )
