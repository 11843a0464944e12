-- ===== src/Mysql/Table/Committed.antt =====
-- What a table that is marked complete has gone through, and when a table is.
use rds_dbsync.Base.{
  ℕ, ◌≡◌, refl, sym, subst, ap, ◌∙◌, Bool, true, false, inl, inr, Option, Option-cases, none, some,
  List, [], ◌∷◌, ◌++◌, map, Text, codes, length, append_assoc,
}
use rds_dbsync.Quote.{TypeOid}
use rds_dbsync.Connections.{
  Command, execute, put_copy_data, put_copy_end, get_result, History, issue, finish_copy_target_tx,
}
use rds_dbsync.Mysql.{Field}
use rds_dbsync.Mysql.Columns.{types_of, fetch_colmum_info-types_of}
use rds_dbsync.Mysql.Copy.{Row, CopyState, CopyOutcome, going, exited, copy_table_rows}
use rds_dbsync.Mysql.Chunks.{concat, line, copy_table_rows-going}
use rds_dbsync.Mysql.Whole.{copy_table_rows-sent}
use rds_dbsync.Mysql.Table.{
  FetchEnd, Fetched, Task, Env, TableResult, exit_with, completed, require, source_query, copy_text,
  copying, after_rows, finish, with_result, begun_table, copy_table,
}

-- What the target is asked for a table whose data are sent in these pieces.
abbrev pub whole_copy : Text → List Text → History
whole_copy copy sent =
    execute copy ∷ map put_copy_data sent
    ++ put_copy_end ∷ get_result ∷ execute (codes "COMMIT") ∷ []

incomplete : false ≡ true → ⊥
incomplete h = cc

assembled :
    (n m : ℕ) (e : n ≡ m) (history : History) (copy : Text) (sent : List Text)
    → completed (some n) (
        (history ++ execute copy ∷ [])
        ++ map put_copy_data sent
        ++ put_copy_end ∷ get_result ∷ execute (codes "COMMIT") ∷ [])
      ≡ completed (some m) (history ++ whole_copy copy sent)
assembled n m e history copy sent = rw e (ap (completed (some m)) (simp append_assoc refl))

require-complete :
    (count : Option ℕ) (r : Bool × History) (f : History → TableResult)
    → (require count r f).complete ≡ true
    → (require count r f ≡ f r.1) × ((f r.1).complete ≡ true)
require-complete count (true, history) f h = (refl, h)
require-complete count (false, history) f h = cc

module _ (env : Env) where
  finish-complete :
      (n : ℕ) (history : History)
      → (finish env n history).complete ≡ true
      → finish env n history
        ≡ completed (some n) (history ++ put_copy_end ∷ get_result ∷ execute (codes "COMMIT") ∷ [])
  unfolding issue finish_copy_target_tx
  finish-complete n history h =
      let (same, h') = require-complete (some n) (issue env.server put_copy_end history) _ h in
      let (same', h'') =
        require-complete (some n) (issue env.server get_result (history ++ put_copy_end ∷ [])) _
          h' in
      same ∙ same' ∙ ap (completed (some n)) (simp append_assoc refl)

  after_rows-complete :
      (history : History) (o : CopyOutcome)
      → (after_rows env history o).complete ≡ true
      → (s : CopyState) × (o ≡ going s)
        × (after_rows env history o
            ≡ completed (some s.row_count) (
                history
                ++ map put_copy_data s.sent
                ++ put_copy_end ∷ get_result ∷ execute (codes "COMMIT") ∷ []))
  after_rows-complete history (going s) h = (s, refl, finish-complete s.row_count _ h)
  after_rows-complete history (exited true s) h = cc
  after_rows-complete history (exited false s) h = cc

  -- The COPY of the rows of a table with these types.
  abbrev copied : Task → List Row → List TypeOid → History → TableResult
  copied task rows column_oids history =
      require none (issue env.server (execute (copy_text env task)) history)
        (λ h. after_rows env h (copy_table_rows (copying env column_oids h) rows))

  copied-complete :
      (task : Task) (rows : List Row) (os : List TypeOid) (history : History)
      → (copied task rows os history).complete ≡ true
      → (sent : List Text) × (copied task rows os history
          ≡ completed (some (length rows)) (history ++ whole_copy (copy_text env task) sent))
        × (concat sent
            ≡ concat
                (map (line (copying env os (history ++ execute (copy_text env task) ∷ []))) rows))
  unfolding issue
  copied-complete task rows os history h =
      let begun = history ++ execute (copy_text env task) ∷ [] in
      let (same, h') =
        require-complete none (issue env.server (execute (copy_text env task)) history) _ h in
      let (s, went, done) =
        after_rows-complete begun (copy_table_rows (copying env os begun) rows) h' in
      let (counted, all) = copy_table_rows-going (copying env os begun) rows s went in
      (
        s.sent,
        same
            ∙ done
            ∙ assembled s.row_count (length rows) counted history (copy_text env task) s.sent,
        all,
      )

  -- What is known of a table that is complete.
  abbrev pub Copied : Task → History → TableResult → Type 0
  Copied task begun result =
      (fields : List Field) × (fetched : Fetched) × (os : List TypeOid) × (sent : List Text)
      × (env.source (source_query env task) ≡ some (fields, fetched))
      × (types_of fields ≡ some os)
      × (result
          ≡ completed (some (length fetched.rows)) (begun ++ whole_copy (copy_text env task) sent))
      × (concat sent
          ≡ concat (
              map (line (copying env os (begun ++ execute (copy_text env task) ∷ [])))
                fetched.rows))

  columns_none :
      (task : Task) (fields : List Field) (fetched : Fetched) (begun : History)
      → types_of fields ≡ none
      → with_result env task (some (fields, fetched)) begun ≡ exit_with none begun
  columns_none task fields fetched begun e =
      rw (fetch_colmum_info-types_of env.options task.schemaname task.relname fields env.isgp, e)
        refl

  columns_some :
      (task : Task) (fields : List Field) (fetched : Fetched) (os : List TypeOid) (begun : History)
      → types_of fields ≡ some os
      → env.options.get_ddl_only ≡ false
      → with_result env task (some (fields, fetched)) begun ≡ copied task fetched.rows os begun
  columns_some task fields fetched os begun e off =
      rw
        (
          fetch_colmum_info-types_of env.options task.schemaname task.relname fields env.isgp,
          e,
          off,
        )
        refl

  complete_columns :
      (task : Task) (fields : List Field) (fetched : Fetched) (begun : History)
      → env.source (source_query env task) ≡ some (fields, fetched)
      → env.options.get_ddl_only ≡ false
      → (with_result env task (some (fields, fetched)) begun).complete ≡ true
      → Copied task begun (with_result env task (some (fields, fetched)) begun)
  complete_columns task fields fetched begun e off h = elim (Option-cases (types_of fields)) [
    | inl none_ ↦
        absurd (
          incomplete
            (sym (ap (λ r. r.complete) (columns_none task fields fetched begun none_)) ∙ h))
    | inr (os, some_) ↦
        let same = columns_some task fields fetched os begun some_ off in
        let (sent, done, all) =
          copied-complete task fetched.rows os begun (sym (ap (λ r. r.complete) same) ∙ h) in
        (fields, fetched, os, sent, e, some_, same ∙ done, all)
  ]

  -- A table is marked complete, where not only the statements are asked for, only if the source
  -- answered its query, all its columns have types, and the target, behind the transaction's
  -- start, was asked for the COPY, given data which are the lines of all rows that were fetched
  -- before the first NULL, and asked for the end, the result and the COMMIT; then these rows are
  -- counted, and the thread goes on. Whether that NULL is the end of the rows is not looked at.
  pub copy_table-complete :
      (task : Task) (history : History)
      → env.options.get_ddl_only ≡ false
      → (copy_table env task history).complete ≡ true
      → Copied task (begun_table env history) (copy_table env task history)
  unfolding copy_table
  copy_table-complete task history off h =
      elim (Option-cases (env.source (source_query env task))) [
        | inl none_ ↦ absurd (
            incomplete (
              sym (ap (λ r. (with_result env task r (begun_table env history)).complete) none_)
              ∙ h))
        | inr ((fields, fetched), some_) ↦
            let same = ap (λ r. with_result env task r (begun_table env history)) some_ in
            subst (Copied task (begun_table env history)) (sym same) (
              complete_columns task fields fetched (begun_table env history) some_ off
                (sym (ap (λ r. r.complete) same) ∙ h))
      ]

  -- A table whose query the source answers, with columns that all have types, is marked complete and
  -- its thread goes on, if the target takes all that it is asked and no abort is asked for; also
  -- where the fetching fails behind some rows, which are then all that is counted.
  pub copy_table-completes :
      (task : Task) (history : History) (fields : List Field) (rows : List Row) (ending : FetchEnd)
      (os : List TypeOid)
      → ((h : History) (c : Command) → env.server h c ≡ true)
      → ((n : ℕ) → env.time_to_abort n ≡ false)
      → env.source (source_query env task) ≡ some (fields, record { rows = rows; ending = ending })
      → types_of fields ≡ some os
      → env.options.get_ddl_only ≡ false
      → ((copy_table env task history).complete ≡ true)
        × ((copy_table env task history).exits ≡ false)
        × ((copy_table env task history).count ≡ some (length rows))
  unfolding copy_table issue finish_copy_target_tx
  copy_table-completes task history fields rows ending os takes no_abort e some_ off =
      let begun = begun_table env history in
      let asked = begun ++ execute (copy_text env task) ∷ [] in
      let (s, went, counted, all) =
        copy_table_rows-sent (copying env os asked) (λ sent t. takes _ _) no_abort rows in
      rw
        (
          e,
          columns_some task fields (record { rows = rows; ending = ending }) os begun some_ off,
          takes,
          went,
          takes,
          takes,
        )
        (refl, refl, ap some counted)
