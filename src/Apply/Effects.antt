-- ===== src/Apply/Effects.antt =====
-- Which commit a pass of the apply thread of dbsync/pgsync.c stores.
use rds_dbsync.Base.{
  ℕ, ◌+◌, ◌≡◌, refl, ◌∙◌, Bool, true, false, ◌&&◌, none, some, List, [], ◌∷◌, arith, Text, codes,
  str_eq, str_eq_sound, ◌==◌, if◌then◌else◌, Bool-cases, inl, inr, subst,
}
use rds_dbsync.Apply.{
  SqlType, begin, commit, first_statment, other_statment, Reply, command_ok, failed, QueueRow,
  ApplyState, Outcome, going, exited, crashed, next_type, is_commit, is_begin, is_first,
  count_commit, end_of_cursor, start_pass, end_failed, begin_again, on_error, on_reply, apply_row,
  apply_rows, apply_pass, error_duplicate_key, and_then,
}
use rds_dbsync.Apply.Progress.{WellFormed, Ends, apply_rows-WellFormed}

-- The id of the last commit, from that of the last one before.
unfoldable pub last_commit : ℕ → List QueueRow → ℕ
last_commit id [] = id
last_commit id (row ∷ rows) =
    last_commit (if str_eq row.sql (codes "commit;") then row.id else id) rows

pub is_first-is_commit : (t : SqlType) → is_first t ≡ true → is_commit t ≡ false
is_first-is_commit begin h = cc
is_first-is_commit commit h = cc
is_first-is_commit first_statment h = refl
is_first-is_commit other_statment h = cc

pub and_right : (a b : Bool) → (a && b) ≡ true → b ≡ true
and_right true b h = h
and_right false b h = cc

pub next_type-is_commit :
    (t : SqlType) (sql : Text) → is_commit (next_type t sql) ≡ str_eq sql (codes "commit;")
unfolding next_type str_eq
next_type-is_commit t sql = elim (Bool-cases (str_eq sql (codes "begin;"))) [
  | inl yes_ ↦ rw (str_eq_sound sql (codes "begin;") yes_) refl
  | inr no_ ↦ rw no_ (elim (Bool-cases (str_eq sql (codes "commit;"))) [
    | inl yes_ ↦ rw yes_ refl
    | inr other_ ↦ rw other_ (statement_type t)
  ])
]
  where
    statement_type :
        (t : SqlType) → is_commit (if is_begin t then first_statment else other_statment) ≡ false
    statement_type begin = refl
    statement_type commit = refl
    statement_type first_statment = refl
    statement_type other_statment = refl

module _ {T : Type 0} where
  -- Of the state in which the loop goes on.
  abbrev pub Goes : (ApplyState T → Type 0) → Outcome T → Type 0
  Goes P (going st) = P st
  Goes P _ = Unit {0}

  pub Goes-and_then :
      (P Q : ApplyState T → Type 0) (o : Outcome T) (f : ApplyState T → Outcome T)
      → Goes P o
      → ((st : ApplyState T) → P st → Goes Q (f st))
      → Goes Q (and_then o f)
  Goes-and_then P Q (going st) f h k = k st h
  Goes-and_then P Q (exited st) f h k = tt
  Goes-and_then P Q crashed f h k = tt

  -- The commit that the state holds, once a row of this type and id is applied.
  abbrev committed : ApplyState T → ℕ → ℕ
  committed st id = if is_commit st.sqltype then id else st.apply_id

  pub count_commit-committed :
      (st : ApplyState T) (id : ℕ)
      → ((count_commit st id).apply_id ≡ committed st id)
        × ((count_commit st id).target ≡ st.target)
  unfolding count_commit
  count_commit-committed st id = elim (Bool-cases (is_commit st.sqltype)) [
    | inl yes_ ↦ rw yes_ (elim (Bool-cases (st.n_commit + 1 == 5)) [
      | inl five ↦ rw five (refl, refl)
      | inr few ↦ rw few (refl, refl)
    ])
    | inr no_ ↦ rw no_ (refl, refl)
  ]

  pub end_of_cursor_lem :
      (st : ApplyState T)
      → WellFormed st
      → ((end_of_cursor st).stored ≡ st.apply_id)
        × ((end_of_cursor st).apply_id ≡ st.apply_id)
        × ((end_of_cursor st).target ≡ st.target)
  unfolding end_of_cursor
  end_of_cursor_lem st w = elim (Bool-cases (st.n_commit == 0)) [
    | inl yes_ ↦ rw yes_ (w.nothing_open (ground arith), refl, refl)
    | inr no_ ↦ rw no_ (refl, refl, refl)
  ]

  -- Everything up to this commit is applied, and stored.
  abbrev Stores : ApplyState T → ℕ → Type 0
  Stores st id = (st.stored ≡ id) × (st.apply_id ≡ id)

  Goes-both :
      (P Q : ApplyState T → Type 0) (o : Outcome T)
      → Ends P o
      → Goes Q o
      → Goes (λ st. P st × Q st) o
  Goes-both P Q (going st) p q = (p, q)
  Goes-both P Q (exited st) p q = tt
  Goes-both P Q crashed p q = tt

  pub start_pass-WellFormed :
      (st : ApplyState T) → st.stored ≡ st.apply_id → WellFormed (start_pass st)
  unfolding start_pass
  start_pass-WellFormed st h = record { count_bound = omega arith; nothing_open = λ e. h }

  module _ (exec : T → Text → Reply × T) where
    end_failed_lem :
        (st : ApplyState T) (reply : Reply × T)
        → Goes (λ st'. st'.apply_id ≡ st.apply_id) (end_failed exec st reply)
    end_failed_lem st (failed code, target) = tt
    end_failed_lem st (command_ok, target) = began (exec target (codes "BEGIN"))
      where
        began :
            (reply : Reply × T)
            → Goes
                (λ st'. st'.apply_id ≡ st.apply_id)
                (begin_again exec (record st { target = target }) reply)
        began (command_ok, target') = refl
        began (failed code, target') = tt

    on_reply_lem :
        (st : ApplyState T) (id : ℕ) (reply : Reply × T)
        → Goes (λ st'. st'.apply_id ≡ committed st id) (on_reply exec st id reply)
    unfolding on_reply on_error
    on_reply_lem st id (command_ok, target) =
        (count_commit-committed (record st { target = target }) id).0
    on_reply_lem st id (failed none, target) = tt
    on_reply_lem st id (failed (some code), target) =
        elim (Bool-cases (code == error_duplicate_key && is_first st.sqltype)) [
          | inl yes_ ↦
              rw
                (
                  yes_,
                  is_first-is_commit st.sqltype
                      (and_right (code == error_duplicate_key) (is_first st.sqltype) yes_),
                )
                (end_failed_lem (record st { target = target }) (exec target (codes "END")))
          | inr no_ ↦ rw no_ tt
        ]

    apply_row_lem :
        (st : ApplyState T) (row : QueueRow)
        → Goes
            (λ st'.
              st'.apply_id ≡ (if str_eq row.sql (codes "commit;") then row.id else st.apply_id))
            (apply_row exec st row)
    unfolding apply_row
    apply_row_lem st row = rw (next_type-is_commit st.sqltype row.sql) at (
        on_reply_lem (record st { sqltype = next_type st.sqltype row.sql }) row.id
          (exec st.target row.sql))

    apply_rows_lem :
        (st : ApplyState T) (rows : List QueueRow)
        → Goes (λ st'. st'.apply_id ≡ last_commit st.apply_id rows) (apply_rows exec st rows)
    unfolding apply_rows last_commit
    apply_rows_lem st [] = refl
    apply_rows_lem st (row ∷ rows) =
        Goes-and_then _ _ (apply_row exec st row) (λ st'. apply_rows exec st' rows)
          (apply_row_lem st row)
          (λ st' h.
            subst
              (λ id. Goes (λ end. end.apply_id ≡ last_commit id rows) (apply_rows exec st' rows)) h
              (apply_rows_lem st' rows))

    apply_pass-Stores :
        (st : ApplyState T) (rows : List QueueRow)
        → st.stored ≡ st.apply_id
        → Goes (λ end. Stores end (last_commit st.apply_id rows)) (apply_pass exec st rows)
    unfolding apply_pass start_pass
    apply_pass-Stores st rows h =
        Goes-and_then (λ end. WellFormed end × (end.apply_id ≡ last_commit st.apply_id rows)) _
          (apply_rows exec (start_pass st) rows) (λ st'. going (end_of_cursor st'))
          (Goes-both WellFormed _ (apply_rows exec (start_pass st) rows)
            (apply_rows-WellFormed exec (start_pass st) rows (start_pass-WellFormed st h))
            (apply_rows_lem (start_pass st) rows))
          (λ end both.
            let closed = end_of_cursor_lem end both.0 in (closed.0 ∙ both.1, closed.1 ∙ both.1))

    -- A pass that starts with everything stored and comes to the end of its rows has applied up
    -- to the last commit among them (or the old one, where none is), and stored its id, whatever
    -- errors it passed over.
    pub apply_pass-last_commit :
        (st st' : ApplyState T) (rows : List QueueRow)
        → st.stored ≡ st.apply_id
        → apply_pass exec st rows ≡ going st'
        → (st'.stored ≡ last_commit st.apply_id rows)
          × (st'.apply_id ≡ last_commit st.apply_id rows)
    apply_pass-last_commit st st' rows h e =
        subst (Goes (λ end. Stores end (last_commit st.apply_id rows))) e
          (apply_pass-Stores st rows h)
