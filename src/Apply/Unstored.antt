-- ===== src/Apply/Unstored.antt =====
-- How many commits the apply thread of dbsync/pgsync.c has run behind the one that is stored.
use rds_dbsync.Base.{
  ℕ, suc, ◌+◌, ◌<◌, ◌≤◌, ◌≡◌, ◌⊎◌, inl, inr, refl, subst, ◌∙◌, Bool, true, false, ◌&&◌, none, some,
  List, [], ◌∷◌, arith, Text, codes, str_eq, ltb, lt→ltb, ◌==◌, if◌then◌else◌, Bool-cases,
}
use rds_dbsync.Apply.{
  Reply, command_ok, failed, QueueRow, ApplyState, Outcome, going, exited, crashed, next_type,
  is_commit, is_first, count_commit, start_pass, end_failed, begin_again, on_error, on_reply,
  apply_row, apply_rows, error_duplicate_key,
}
use rds_dbsync.Apply.Rising.{Rising}
use rds_dbsync.Apply.Effects.{
  Goes, Goes-and_then, is_first-is_commit, and_right, next_type-is_commit,
}

-- The commits among the rows whose id is larger.
unfoldable pub commits_behind : ℕ → List QueueRow → ℕ
commits_behind k [] = 0
commits_behind k (row ∷ rows) =
    let rest = commits_behind k rows in
    if str_eq row.sql (codes "commit;") && ltb k row.id then suc rest else rest

ltb_old : (k id : ℕ) → id ≤ k → ltb k id ≡ false
ltb_old k id h = ground arith

commits_behind-other :
    (k : ℕ) (row : QueueRow) (rows : List QueueRow)
    → str_eq row.sql (codes "commit;") ≡ false
    → commits_behind k (row ∷ rows) ≡ commits_behind k rows
unfolding commits_behind
commits_behind-other k row rows h = rw h refl

commits_behind_old :
    (k : ℕ) (row : QueueRow) (rows : List QueueRow)
    → row.id ≤ k
    → commits_behind k (row ∷ rows) ≡ commits_behind k rows
unfolding commits_behind
commits_behind_old k row rows h = elim (Bool-cases (str_eq row.sql (codes "commit;"))) [
  | inl yes_ ↦ rw (yes_, ltb_old k row.id h) refl
  | inr no_ ↦ rw no_ refl
]

commits_behind_new :
    (k : ℕ) (row : QueueRow) (rows : List QueueRow)
    → str_eq row.sql (codes "commit;") ≡ true
    → k < row.id
    → commits_behind k (row ∷ rows) ≡ suc (commits_behind k rows)
unfolding commits_behind
commits_behind_new k row rows h up = rw (h, lt→ltb k row.id up) refl

module _ {T : Type 0} where
  -- The counter and what is stored behind a row: no commit, a commit, or the fifth.
  abbrev Counts : Bool → Bool → ℕ → ℕ → ℕ → ApplyState T → Type 0
  Counts false five id stored n st' = (st'.stored ≡ stored) × (st'.n_commit ≡ n)
  Counts true false id stored n st' = (st'.stored ≡ stored) × (st'.n_commit ≡ n + 1)
  Counts true true id stored n st' = (st'.stored ≡ id) × (st'.n_commit ≡ 0)

  count_commit-Counts :
      (st : ApplyState T) (id : ℕ)
      → Counts
          (is_commit st.sqltype)
          (st.n_commit + 1 == 5)
          id
          st.stored
          st.n_commit
          (count_commit st id)
  unfolding count_commit
  count_commit-Counts st id = elim (Bool-cases (is_commit st.sqltype)) [
    | inl yes_ ↦ rw yes_ (elim (Bool-cases (st.n_commit + 1 == 5)) [
      | inl five ↦ rw five (refl, refl)
      | inr few ↦ rw few (refl, refl)
    ])
    | inr no_ ↦ rw no_ (refl, refl)
  ]

  -- The counter, where everything up to `low` was applied at first: nothing was stored since, or
  -- something was.
  abbrev Counted : ℕ → ApplyState T → List QueueRow → ApplyState T → Type 0
  Counted low st rows end =
      (end.n_commit < 5)
      × (((end.stored ≡ st.stored) × (end.n_commit ≡ st.n_commit + commits_behind end.stored rows))
          ⊎ ((low < end.stored) × (end.n_commit ≡ commits_behind end.stored rows)))

  above_row :
      (low : ℕ) (row : QueueRow) (rows : List QueueRow) (st end : ApplyState T)
      → low < row.id
      → end.n_commit < 5
      → row.id < end.stored
      → end.n_commit ≡ commits_behind end.stored rows
      → Counted low st (row ∷ rows) end
  above_row low row rows st end up few above count = (
    few,
    inr (
      omega (arith, above, up),
      omega (arith, count, commits_behind_old end.stored row rows (omega (arith, above))),
    ),
  )

  Counts-Counted :
      (c five : Bool) (low : ℕ) (row : QueueRow) (rows : List QueueRow) (st st1 end : ApplyState T)
      → str_eq row.sql (codes "commit;") ≡ c
      → Counts c five row.id st.stored st.n_commit st1
      → low < row.id
      → st.stored ≤ low
      → Counted row.id st1 rows end
      → Counted low st (row ∷ rows) end
  Counts-Counted false five low row rows st st1 end h (same, n) up old (few, inl (kept, count)) =
      (few, inl (kept ∙ same, omega (arith, count, n, commits_behind-other end.stored row rows h)))
  Counts-Counted true false low row rows st st1 end h (same, n) up old (few, inl (kept, count)) =
      let behind : end.stored < row.id = omega (arith, kept, same, up, old) in
      (
        few,
        inl (kept ∙ same, omega (arith, count, n, commits_behind_new end.stored row rows h behind)),
      )
  Counts-Counted true true low row rows st st1 end h (same, n) up old (few, inl (kept, count)) =
      let reached : row.id ≤ end.stored = omega (arith, kept, same) in
      (
        few,
        inr (
          omega (arith, reached, up),
          omega (arith, count, n, commits_behind_old end.stored row rows reached),
        ),
      )
  Counts-Counted false five low row rows st st1 end h (same, n) up old (few, inr (above, count)) =
      above_row low row rows st end up few above count
  Counts-Counted true false low row rows st st1 end h (same, n) up old (few, inr (above, count)) =
      above_row low row rows st end up few above count
  Counts-Counted true true low row rows st st1 end h (same, n) up old (few, inr (above, count)) =
      above_row low row rows st end up few above count

  Counts-few :
      (c five : Bool) (low id : ℕ) (st st1 : ApplyState T)
      → (st.n_commit + 1 == 5) ≡ five
      → Counts c five id st.stored st.n_commit st1
      → low < id
      → st.stored ≤ low
      → st.n_commit < 5
      → (st1.stored ≤ id) × (st1.n_commit < 5)
  Counts-few false five low id st st1 e (same, n) up old few = (omega arith, omega arith)
  Counts-few true false low id st st1 e (same, n) up old few = (omega arith, ground (arith, e))
  Counts-few true true low id st st1 e (same, n) up old few = (omega arith, omega arith)

  module _ (exec : T → Text → Reply × T) where
    end_failed-kept :
        (st : ApplyState T) (reply : Reply × T)
        → Goes
            (λ st'. (st'.stored ≡ st.stored) × (st'.n_commit ≡ st.n_commit))
            (end_failed exec st reply)
    end_failed-kept st (failed code, target) = tt
    end_failed-kept st (command_ok, target) = began (exec target (codes "BEGIN"))
      where
        began :
            (reply : Reply × T)
            → Goes
                (λ st'. (st'.stored ≡ st.stored) × (st'.n_commit ≡ st.n_commit))
                (begin_again exec (record st { target = target }) reply)
        began (command_ok, target') = (refl, refl)
        began (failed code, target') = tt

    on_reply-Counts :
        (st : ApplyState T) (id : ℕ) (reply : Reply × T)
        → Goes
            (Counts (is_commit st.sqltype) (st.n_commit + 1 == 5) id st.stored st.n_commit)
            (on_reply exec st id reply)
    unfolding on_reply on_error
    on_reply-Counts st id (command_ok, target) =
        count_commit-Counts (record st { target = target }) id
    on_reply-Counts st id (failed none, target) = tt
    on_reply-Counts st id (failed (some code), target) =
        elim (Bool-cases (code == error_duplicate_key && is_first st.sqltype)) [
          | inl yes_ ↦
              rw
                (
                  yes_,
                  is_first-is_commit st.sqltype
                      (and_right (code == error_duplicate_key) (is_first st.sqltype) yes_),
                )
                (end_failed-kept (record st { target = target }) (exec target (codes "END")))
          | inr no_ ↦ rw no_ tt
        ]

    apply_row-Counts :
        (st : ApplyState T) (row : QueueRow)
        → Goes
            (Counts
              (str_eq row.sql (codes "commit;"))
              (st.n_commit + 1 == 5)
              row.id
              st.stored
              st.n_commit)
            (apply_row exec st row)
    unfolding apply_row
    apply_row-Counts st row = rw (next_type-is_commit st.sqltype row.sql) at (
        on_reply-Counts (record st { sqltype = next_type st.sqltype row.sql }) row.id
          (exec st.target row.sql))

    Goes-weaken :
        (P Q : ApplyState T → Type 0) (o : Outcome T)
        → Goes P o
        → ((st : ApplyState T) → P st → Q st)
        → Goes Q o
    Goes-weaken P Q (going st) h k = k st h
    Goes-weaken P Q (exited st) h k = tt
    Goes-weaken P Q crashed h k = tt

    apply_rows-Counted :
        (low : ℕ) (st : ApplyState T) (rows : List QueueRow)
        → Rising low rows
        → st.stored ≤ low
        → st.n_commit < 5
        → Goes (Counted low st rows) (apply_rows exec st rows)
    unfolding apply_rows commits_behind
    apply_rows-Counted low st [] r old few = (few, inl (refl, omega arith))
    apply_rows-Counted low st (row ∷ rows) (up, r) old few =
        let c = str_eq row.sql (codes "commit;") in
        let five = st.n_commit + 1 == 5 in
        Goes-and_then (Counts c five row.id st.stored st.n_commit) (Counted low st (row ∷ rows))
          (apply_row exec st row) (λ st1. apply_rows exec st1 rows) (apply_row-Counts st row)
          (λ st1 counts.
            let (old1, few1) = Counts-few c five low row.id st st1 refl counts up old few in
            Goes-weaken (Counted row.id st1 rows) (Counted low st (row ∷ rows))
              (apply_rows exec st1 rows) (apply_rows-Counted row.id st1 rows r old1 few1)
              (λ end counted.
                Counts-Counted c five low row rows st st1 end refl counts up old counted))

    -- A pass starts with everything stored, on rows whose ids grow and lie behind it. Wherever it
    -- goes on behind some rows, fewer than five of the commits among them have a larger id than
    -- the one that is stored, and that id is the old one or a larger one.
    pub apply_rows-unstored :
        (st st' : ApplyState T) (rows : List QueueRow)
        → st.stored ≡ st.apply_id
        → Rising st.apply_id rows
        → apply_rows exec (start_pass st) rows ≡ going st'
        → (commits_behind st'.stored rows < 5) × (st.stored ≤ st'.stored)
    unfolding start_pass
    apply_rows-unstored st st' rows h r e = unstored st' (
        subst (Goes (Counted st.apply_id (start_pass st) rows)) e
          (apply_rows-Counted st.apply_id (start_pass st) rows r (omega (arith, h)) (omega arith)))
      where
        unstored :
            (end : ApplyState T)
            → Counted st.apply_id (start_pass st) rows end
            → (commits_behind end.stored rows < 5) × (st.stored ≤ end.stored)
        unstored end (few, inl (same, count)) = (omega (arith, few, count), omega (arith, same))
        unstored end (few, inr (above, count)) =
            (omega (arith, few, count), omega (arith, above, h))
