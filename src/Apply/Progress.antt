-- ===== src/Apply/Progress.antt =====
-- How far the apply thread of dbsync/pgsync.c gets, and what it stores of that.
use rds_dbsync.Base.{
  ℕ, ◌+◌, ◌<◌, ◌≡◌, refl, Bool, true, false, ◌&&◌, Option, none, some, List, [], ◌∷◌, arith, Text,
  codes, ◌==◌, if◌then◌else◌, Bool-cases, inl, inr,
}
use rds_dbsync.Apply.{
  SqlType, begin, Reply, command_ok, failed, QueueRow, ApplyState, Outcome, going, exited, crashed,
  next_type, is_commit, is_first, update_task_status, count_commit, end_of_cursor, start_pass,
  end_failed, begin_again, on_error, on_reply, apply_row, apply_rows, apply_pass,
  error_duplicate_key, and_then,
}

-- The counter of commits is below five, and where it is zero the last commit is stored.
pub record WellFormed {T : Type 0} (st : ApplyState T) : Type 0 where
  pub count_bound : st.n_commit < 5
  pub nothing_open : st.n_commit ≡ 0 → st.stored ≡ st.apply_id

module _ {T : Type 0} where
  -- Of the state that the loop or the thread ends in.
  abbrev pub Ends : (ApplyState T → Type 0) → Outcome T → Type 0
  Ends P (going st) = P st
  Ends P (exited st) = P st
  Ends P crashed = Unit {0}

  Ends-and_then :
      (P : ApplyState T → Type 0) (o : Outcome T) (f : ApplyState T → Outcome T)
      → Ends P o
      → ((st : ApplyState T) → P st → Ends P (f st))
      → Ends P (and_then o f)
  Ends-and_then P (going st) f h k = k st h
  Ends-and_then P (exited st) f h k = h
  Ends-and_then P crashed f h k = h

  counted :
      (st : ApplyState T) (id : ℕ) (five : Bool)
      → (st.n_commit + 1 == 5) ≡ five
      → WellFormed st
      → WellFormed (
          let st' : ApplyState T = record st { n_commit = st.n_commit + 1; apply_id = id } in
          if five then update_task_status st' else st')
  counted st id true h w = record { count_bound = omega arith; nothing_open = λ e. refl }
  counted st id false h w = record {
    count_bound = ground (arith, w.count_bound);
    nothing_open = λ e. ground (arith, e);
  }

  count_commit-WellFormed :
      (st : ApplyState T) (id : ℕ) → WellFormed st → WellFormed (count_commit st id)
  unfolding count_commit
  count_commit-WellFormed st id w = elim (Bool-cases (is_commit st.sqltype)) [
    | inl yes_ ↦ rw yes_ (counted st id (st.n_commit + 1 == 5) refl w)
    | inr no_ ↦ rw no_ w
  ]

  end_of_cursor-WellFormed : (st : ApplyState T) → WellFormed st → WellFormed (end_of_cursor st)
  unfolding end_of_cursor
  end_of_cursor-WellFormed st w = elim (Bool-cases (st.n_commit == 0)) [
    | inl yes_ ↦ rw yes_ w
    | inr no_ ↦ rw no_ (record { count_bound = omega arith; nothing_open = λ e. refl })
  ]

  -- The fields that the invariant reads are those of a state for which it holds.
  kept_lem :
      (st : ApplyState T) (sqltype : SqlType) (target : T)
      → WellFormed st
      → WellFormed (record st { sqltype = sqltype; target = target })
  kept_lem st sqltype target w = record {
    count_bound = w.count_bound;
    nothing_open = w.nothing_open;
  }

  module _ (exec : T → Text → Reply × T) where
    begin_again-WellFormed :
        (st : ApplyState T) (reply : Reply × T)
        → WellFormed st
        → Ends WellFormed (begin_again exec st reply)
    begin_again-WellFormed st (command_ok, target) w = kept_lem st begin target w
    begin_again-WellFormed st (failed code, target) w = kept_lem st st.sqltype target w

    end_failed-WellFormed :
        (st : ApplyState T) (reply : Reply × T)
        → WellFormed st
        → Ends WellFormed (end_failed exec st reply)
    end_failed-WellFormed st (command_ok, target) w =
        begin_again-WellFormed (record st { target = target }) (exec target (codes "BEGIN"))
          (kept_lem st st.sqltype target w)
    end_failed-WellFormed st (failed code, target) w = kept_lem st st.sqltype target w

    on_error-WellFormed :
        (st : ApplyState T) (code : Option ℕ)
        → WellFormed st
        → Ends WellFormed (on_error exec st code)
    unfolding on_error
    on_error-WellFormed st none w = tt
    on_error-WellFormed st (some code) w =
        elim (Bool-cases (code == error_duplicate_key && is_first st.sqltype)) [
          | inl yes_ ↦ rw yes_ (end_failed-WellFormed st (exec st.target (codes "END")) w)
          | inr no_ ↦ rw no_ w
        ]

    on_reply-WellFormed :
        (st : ApplyState T) (id : ℕ) (reply : Reply × T)
        → WellFormed st
        → Ends WellFormed (on_reply exec st id reply)
    unfolding on_reply
    on_reply-WellFormed st id (command_ok, target) w =
        count_commit-WellFormed (record st { target = target }) id (kept_lem st st.sqltype target w)
    on_reply-WellFormed st id (failed code, target) w =
        on_error-WellFormed (record st { target = target }) code (kept_lem st st.sqltype target w)

    apply_row-WellFormed :
        (st : ApplyState T) (row : QueueRow)
        → WellFormed st
        → Ends WellFormed (apply_row exec st row)
    unfolding apply_row
    apply_row-WellFormed st row w =
        on_reply-WellFormed (record st { sqltype = next_type st.sqltype row.sql }) row.id
          (exec st.target row.sql) (kept_lem st (next_type st.sqltype row.sql) st.target w)

    pub apply_rows-WellFormed :
        (st : ApplyState T) (rows : List QueueRow)
        → WellFormed st
        → Ends WellFormed (apply_rows exec st rows)
    unfolding apply_rows
    apply_rows-WellFormed st [] w = w
    apply_rows-WellFormed st (row ∷ rows) w =
        Ends-and_then WellFormed (apply_row exec st row) (λ st'. apply_rows exec st' rows)
          (apply_row-WellFormed st row w) (λ st' w'. apply_rows-WellFormed st' rows w')

    -- After a pass that starts with everything stored, whatever the target answers, and whether
    -- the pass comes to its end or the thread is left by an error that is not a crash: the
    -- counter of commits is below five, and where it is zero the last commit is stored.
    pub apply_pass-WellFormed :
        (st : ApplyState T) (rows : List QueueRow)
        → st.stored ≡ st.apply_id
        → Ends WellFormed (apply_pass exec st rows)
    unfolding apply_pass start_pass
    apply_pass-WellFormed st rows h =
        Ends-and_then WellFormed (apply_rows exec (start_pass st) rows)
          (λ st'. going (end_of_cursor st'))
          (apply_rows-WellFormed (start_pass st) rows
            (record { count_bound = omega arith; nothing_open = λ e. h }))
          (λ st' w. end_of_cursor-WellFormed st' w)
