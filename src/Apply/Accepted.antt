-- ===== src/Apply/Accepted.antt =====
-- What a pass of the apply thread of dbsync/pgsync.c does where the target takes every statement.
use rds_dbsync.Base.{◌≡◌, refl, ap, ◌∙◌, List, [], ◌∷◌, Text, subst}
use rds_dbsync.Apply.{
  Reply, command_ok, QueueRow, ApplyState, going, next_type, count_commit, end_of_cursor,
  start_pass, on_reply, apply_row, apply_rows, apply_pass, and_then,
}
use rds_dbsync.Apply.Progress.{WellFormed, Ends, apply_rows-WellFormed}
use rds_dbsync.Apply.Effects.{
  last_commit, count_commit-committed, end_of_cursor_lem, start_pass-WellFormed,
  apply_pass-last_commit,
}

-- A target that takes every statement, after the statements of the rows in their order.
unfoldable pub run : {T : Type 0} → (T → Text → Reply × T) → T → List QueueRow → T
run exec target [] = target
run exec target (row ∷ rows) = run exec (exec target row.sql).1 rows

module _ {T : Type 0} (exec : T → Text → Reply × T)
    (accepts : (target : T) (sql : Text) → (exec target sql).0 ≡ command_ok) where
  apply_row-accepted :
      (st : ApplyState T) (row : QueueRow)
      → apply_row exec st row
        ≡ going (
            count_commit
              (record st {
                sqltype = next_type st.sqltype row.sql;
                target = (exec st.target row.sql).1;
              })
              row.id)
  unfolding apply_row on_reply
  apply_row-accepted st row =
      ap
        (λ reply.
          on_reply exec (record st { sqltype = next_type st.sqltype row.sql }) row.id
            (reply, (exec st.target row.sql).1))
        (accepts st.target row.sql)

  apply_rows-accepted :
      (st : ApplyState T) (rows : List QueueRow)
      → (st' : ApplyState T) × (apply_rows exec st rows ≡ going st')
        × (st'.target ≡ run exec st.target rows)
  unfolding apply_rows run
  apply_rows-accepted st [] = (st, refl, refl)
  apply_rows-accepted st (row ∷ rows) =
      let applied : ApplyState T = record st {
        sqltype = next_type st.sqltype row.sql;
        target = (exec st.target row.sql).1;
      } in
      let (st', e, same) = apply_rows-accepted (count_commit applied row.id) rows in
      (
        st',
        ap (λ o. and_then o (λ st''. apply_rows exec st'' rows)) (apply_row-accepted st row) ∙ e,
        same ∙ ap (λ target. run exec target rows) (count_commit-committed applied row.id).1,
      )

  -- Where the target takes every statement and everything is stored at the start, a pass
  -- comes to its end: the target has run the statements of all rows in their order, and the
  -- id of the last commit is stored.
  pub apply_pass-accepted :
      (st : ApplyState T) (rows : List QueueRow)
      → st.stored ≡ st.apply_id
      → (st' : ApplyState T) × (apply_pass exec st rows ≡ going st')
        × (st'.target ≡ run exec st.target rows)
        × (st'.stored ≡ last_commit st.apply_id rows)
  unfolding apply_pass start_pass
  apply_pass-accepted st rows h =
      let (end, e, same) = apply_rows-accepted (start_pass st) rows in
      let whole : apply_pass exec st rows ≡ going (end_of_cursor end) =
        ap (λ o. and_then o (λ st'. going (end_of_cursor st'))) e in
      let w : WellFormed end =
        subst (Ends WellFormed) e
          (apply_rows-WellFormed exec (start_pass st) rows (start_pass-WellFormed st h)) in
      (
        end_of_cursor end,
        whole,
        (end_of_cursor_lem end w).2 ∙ same,
        (apply_pass-last_commit exec st (end_of_cursor end) rows h whole).0,
      )
