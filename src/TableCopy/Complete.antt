-- ===== src/TableCopy/Complete.antt =====
-- What a table of a PostgreSQL source that is marked complete has gone through.
use rds_dbsync.Base.{
  ℕ, suc, ◌≡◌, refl, sym, ap, ◌∙◌, Bool, true, false, List, [], ◌∷◌, ◌++◌, map, Text, codes, length,
  append_assoc, append-nil,
}
use rds_dbsync.Connections.{
  execute, put_copy_data, put_copy_end, get_result, History, Server, issue, finish_copy_origin_tx,
  finish_copy_target_tx,
}
use rds_dbsync.TableCopy.{
  PgTask, PgEnv, PgResult, pg_done, and_put, counted, put_rows, copy_to, copy_from,
  at_target_or_exit, pg_finish, behind_rows, copy_rows, behind_copy_to, origin_begun, target_begun,
  copy_table_data,
}

-- What the target is asked for a whole table.
abbrev pub whole_table : Text → List Text → History
whole_table copy rows =
    execute copy ∷ map put_copy_data rows
    ++ put_copy_end ∷ get_result ∷ execute (codes "COMMIT") ∷ []

and_put-true :
    (r : Bool × History) (f : History → Bool × ℕ × History)
    → (and_put r f).0 ≡ true
    → (and_put r f ≡ f r.1) × ((f r.1).0 ≡ true)
and_put-true (true, h) f e = (refl, e)
and_put-true (false, h) f e = cc

-- Where all rows are put, all are counted, and the target has been asked for each.
put_rows-all :
    (target : Server) (rows : List Text) (h : History)
    → (put_rows target rows h).0 ≡ true
    → put_rows target rows h ≡ (true, length rows, h ++ map put_copy_data rows)
unfolding put_rows issue
put_rows-all target [] h e = ap (λ k. (true, 0, k)) (sym (append-nil h))
put_rows-all target (row ∷ rows) h e =
    let (same, rest) =
      and_put-true (issue target (put_copy_data row) h) (λ k. counted (put_rows target rows k)) e in
    same
    ∙ ap counted (put_rows-all target rows (h ++ put_copy_data row ∷ []) rest)
    ∙ ap (λ k. (true, suc (length rows), k))
        (append_assoc h (put_copy_data row ∷ []) (map put_copy_data rows))

module _ (env : PgEnv) where
  at_target-complete :
      (count : ℕ) (origin : History) (r : Bool × History) (f : History → PgResult)
      → (at_target_or_exit env count origin r f).complete ≡ true
      → (at_target_or_exit env count origin r f ≡ f r.1) × ((f r.1).complete ≡ true)
  at_target-complete count origin (true, h) f e = (refl, e)
  at_target-complete count origin (false, h) f e = cc

  pg_finish-complete :
      (count : ℕ) (origin target : History)
      → (pg_finish env count origin target).complete ≡ true
      → pg_finish env count origin target
        ≡ pg_done count
            (origin ++ execute (codes "ROLLBACK") ∷ [])
            (target ++ put_copy_end ∷ get_result ∷ execute (codes "COMMIT") ∷ [])
  unfolding issue finish_copy_origin_tx finish_copy_target_tx
  pg_finish-complete count origin target e =
      let (same, e') = at_target-complete count origin (issue env.target put_copy_end target) _ e in
      let (same', e'') =
        at_target-complete count origin (issue env.target get_result (target ++ put_copy_end ∷ []))
          _ e' in
      same
      ∙ same'
      ∙ ap (pg_done count (origin ++ execute (codes "ROLLBACK") ∷ [])) (simp append_assoc refl)

  behind_rows-complete :
      (proper : Bool) (origin : History) (o : Bool × ℕ × History)
      → (behind_rows env proper origin o).complete ≡ true
      → (proper ≡ true)
        × (o.0 ≡ true)
        × (behind_rows env proper origin o
            ≡ pg_done o.1
                (origin ++ execute (codes "ROLLBACK") ∷ [])
                (o.2 ++ put_copy_end ∷ get_result ∷ execute (codes "COMMIT") ∷ []))
  behind_rows-complete proper origin (false, count, target) e = cc
  behind_rows-complete true origin (true, count, target) e =
      (refl, refl, pg_finish-complete count origin target e)
  behind_rows-complete false origin (true, count, target) e = cc

  -- What is known of a table that is complete.
  abbrev pub PgCopied : PgTask → History → History → PgResult → Type 0
  PgCopied task at_origin at_target result =
      ((env.copy_data task).1 ≡ true)
      × (result
          ≡ pg_done (length (env.copy_data task).0)
              (at_origin ++ execute (copy_to env task) ∷ execute (codes "ROLLBACK") ∷ [])
              (at_target ++ whole_table (copy_from env task) (env.copy_data task).0))

  copy_rows-complete :
      (task : PgTask) (origin target : History)
      → (copy_rows env task origin target).complete ≡ true
      → ((env.copy_data task).1 ≡ true)
        × (copy_rows env task origin target
            ≡ pg_done
                (length (env.copy_data task).0)
                (origin ++ execute (codes "ROLLBACK") ∷ [])
                (target ++ whole_table (copy_from env task) (env.copy_data task).0))
  unfolding issue
  copy_rows-complete task origin target e =
      let rows = (env.copy_data task).0 in
      let asked = target ++ execute (copy_from env task) ∷ [] in
      let (same, e') =
        at_target-complete 0 origin (issue env.target (execute (copy_from env task)) target) _ e in
      let (proper, all, done) =
        behind_rows-complete (env.copy_data task).1 origin (put_rows env.target rows asked) e' in
      let put = put_rows-all env.target rows asked all in
      (
        proper,
        same
            ∙ done
            ∙ ap
                (λ (o : Bool × ℕ × History).
                  pg_done o.1 (origin ++ execute (codes "ROLLBACK") ∷ [])
                    (o.2 ++ put_copy_end ∷ get_result ∷ execute (codes "COMMIT") ∷ []))
                put
            ∙ ap (pg_done (length rows) (origin ++ execute (codes "ROLLBACK") ∷ []))
                (simp append_assoc refl),
      )

  behind_copy_to-complete :
      (task : PgTask) (r : Bool × History) (target : History)
      → (behind_copy_to env task r target).complete ≡ true
      → (behind_copy_to env task r target ≡ copy_rows env task r.1 target)
        × ((copy_rows env task r.1 target).complete ≡ true)
  behind_copy_to-complete task (true, h) target e = (refl, e)
  behind_copy_to-complete task (false, h) target e = cc

  -- A table is marked complete only if the data of the origin ended properly, and the target,
  -- behind the transaction's start, was asked for the COPY, given each piece of the data in the
  -- order in which it came, and asked for the end, the result and the COMMIT; then the pieces are
  -- counted and the transaction of the origin is rolled back.
  pub copy_table_data-complete :
      (task : PgTask) (at_origin at_target : History)
      → (copy_table_data env task at_origin at_target).complete ≡ true
      → PgCopied task
          (origin_begun env at_origin)
          (target_begun env at_target)
          (copy_table_data env task at_origin at_target)
  unfolding copy_table_data issue
  copy_table_data-complete task at_origin at_target e =
      let begun = origin_begun env at_origin in
      let (same, e') =
        behind_copy_to-complete task (issue env.origin (execute (copy_to env task)) begun)
          (target_begun env at_target) e in
      let (proper, done) =
        copy_rows-complete task (begun ++ execute (copy_to env task) ∷ [])
          (target_begun env at_target) e' in
      (
        proper,
        same
            ∙ done
            ∙ ap
                (λ h. pg_done (length (env.copy_data task).0) h (
                  target_begun env at_target
                  ++ whole_table (copy_from env task) (env.copy_data task).0))
                (append_assoc begun (execute (copy_to env task) ∷ [])
                  (execute (codes "ROLLBACK") ∷ [])),
      )
