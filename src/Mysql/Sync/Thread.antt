-- ===== src/Mysql/Sync/Thread.antt =====
-- What a thread that ended well has done.
use rds_dbsync.Base.{
  ℕ, ◌≡◌, refl, sym, subst, ap, ◌∙◌, Bool, true, false, not, Option, none, some, List, [], ◌∷◌,
  ◌++◌, map, Text, if◌then◌else◌,
}
use rds_dbsync.Quote.{TypeOid}
use rds_dbsync.Connections.{
  History, issue, execute, put_copy_data, put_copy_end, get_result, finish_copy_target_tx,
}
use rds_dbsync.Mysql.{Field, fetch_colmum_info}
use rds_dbsync.Mysql.Copy.{Row, CopyOutcome, going, exited, copy_table_rows}
use rds_dbsync.Mysql.Table.{
  Fetched, Task, Env, TableResult, copy_table, completed, require, with_result, with_columns,
  after_rows, begun_table, copying, source_query, copy_text,
}
use rds_dbsync.Mysql.Table.Committed.{Copied, copy_table-complete}
use rds_dbsync.Mysql.Sync.{ThreadArg, after_table, copy_tasks}

-- A thread goes to its exit just where the table is not complete.
Consistent : TableResult → Type 0
Consistent r = r.exits ≡ not r.complete

require-Consistent :
    (count : Option ℕ) (r : Bool × History) (f : History → TableResult)
    → ((h : History) → Consistent (f h))
    → Consistent (require count r f)
unfolding Consistent
require-Consistent count (true, history) f h = h history
require-Consistent count (false, history) f h = refl

if-Consistent :
    (c : Bool) (r s : TableResult) → Consistent r → Consistent s → Consistent (if c then r else s)
if-Consistent true r s h k = h
if-Consistent false r s h k = k

of_not : (exits complete : Bool) → exits ≡ not complete → exits ≡ false → complete ≡ true
of_not exits true e h = refl
of_not exits false e h = cc

not_ok :
    (c : Bool) (t u : ThreadArg) → t.all_ok ≡ false → (if c then t else u).all_ok ≡ true → c ≡ false
not_ok true t u e h = cc
not_ok false t u e h = refl

module _ (env : Env) where
  after_rows-Consistent :
      (history : History) (o : CopyOutcome) → Consistent (after_rows env history o)
  unfolding Consistent
  after_rows-Consistent history (going s) =
      require-Consistent (some s.row_count)
        (issue env.server put_copy_end (history ++ map put_copy_data s.sent))
        (λ h.
          require (some s.row_count) (issue env.server get_result h)
            (λ h'. completed (some s.row_count) (finish_copy_target_tx env.server h').1))
        (λ h.
          require-Consistent (some s.row_count) (issue env.server get_result h)
            (λ h'. completed (some s.row_count) (finish_copy_target_tx env.server h').1)
            (λ h'. refl))
  after_rows-Consistent history (exited true s) = refl
  after_rows-Consistent history (exited false s) = refl

  with_columns-Consistent :
      (task : Task) (rows : List Row) (columns : Option (List TypeOid × Text)) (history : History)
      → Consistent (with_columns env task rows columns history)
  unfolding Consistent
  with_columns-Consistent task rows none history = refl
  with_columns-Consistent task rows (some (os, ddl)) history =
      if-Consistent env.options.get_ddl_only (completed none history) _ refl (
        require-Consistent none (issue env.server (execute (copy_text env task)) history) _
          (λ h. after_rows-Consistent h (copy_table_rows (copying env os h) rows)))

  with_result-Consistent :
      (task : Task) (result : Option (List Field × Fetched)) (history : History)
      → Consistent (with_result env task result history)
  unfolding Consistent
  with_result-Consistent task none history = refl
  with_result-Consistent task (some (fields, fetched)) history =
      with_columns-Consistent task fetched.rows
        (fetch_colmum_info env.options task.schemaname task.relname fields env.isgp) history

  goes_on :
      (task : Task) (history : History)
      → (copy_table env task history).exits ≡ false
      → (copy_table env task history).complete ≡ true
  unfolding Consistent copy_table
  goes_on task history h =
      of_not _ _
        (with_result-Consistent task (env.source (source_query env task)) (begun_table env history))
        h

  -- Each task, on the target that the tasks before it leave, has gone through `Copied`.
  abbrev pub AllCopied : List Task → History → History → Type 0
  AllCopied [] before after = before ≡ after
  AllCopied (task ∷ tasks) before after =
      Copied env task (begun_table env before) (copy_table env task before)
      × AllCopied tasks (copy_table env task before).history after

  -- A thread that ended well, where not only the statements are asked for, has asked the target, for
  -- one task behind the other, for the COPY, with the lines of all rows that were fetched before the
  -- first NULL, its end and its result, and for a COMMIT. That the target took the COMMIT, or that
  -- no row was left behind that NULL, is not stated.
  pub copy_tasks-AllCopied :
      (tasks : List Task) (t : ThreadArg)
      → env.options.get_ddl_only ≡ false
      → (copy_tasks env tasks t).all_ok ≡ true
      → AllCopied tasks t.target (copy_tasks env tasks t).target
  unfolding copy_tasks
  copy_tasks-AllCopied [] t off h = refl
  copy_tasks-AllCopied (task ∷ tasks) t off h =
      let r = copy_table env task t.target in
      let on = not_ok r.exits (after_table r t) (copy_tasks env tasks (after_table r t)) refl h in
      let ok =
        ap (λ c. (if c then after_table r t else copy_tasks env tasks (after_table r t)).all_ok)
          (sym on)
        ∙ h in
      (
        copy_table-complete env task t.target off (goes_on task t.target on),
        subst
            (λ c.
              AllCopied tasks r.history
                (if c then after_table r t else copy_tasks env tasks (after_table r t)).target)
            (sym on) (copy_tasks-AllCopied tasks (after_table r t) off ok),
      )
