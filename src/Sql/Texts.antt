-- ===== src/Sql/Texts.antt =====
-- Which messages of dbsync/utils.c become the statement of a commit.
use rds_dbsync.Base.{
  ℕ, ◌≡◌, refl, Bool, true, false, not, ◌&&◌, ◌||◌, Option, none, some, [], Text, codes, str_eq,
  ◌==◌, ◌>>=◌, if◌then◌else◌, map_option,
}
use rds_dbsync.Message.{
  DecodeMessage, msgkind_begin, msgkind_commit, msgkind_insert, msgkind_update, msgkind_delete,
}
use rds_dbsync.Quote.{Escapes}
use rds_dbsync.Sql.{
  out_put_tuple_to_sql, statement, insert_statement, delete_statement, append_update_statement,
  append_update_statement_full_row, append_update_statement_key_change,
  append_update_statement_key_not_change, checktuple, update_text, rel_text, append_insert_values,
  append_delete_where_statement,
}

abbrev pub NotCommit : Option Text → Type 0
NotCommit none = Unit {0}
NotCommit (some sql) = str_eq sql (codes "commit;") ≡ false

abbrev pub text_of : ℕ × Text → Text
text_of p = p.1

bind-NotCommit :
    {A : Type 0} (o : Option A) (f : A → Option Text)
    → ((a : A) → NotCommit (f a))
    → NotCommit (o >>= f)
bind-NotCommit none f h = tt
bind-NotCommit (some a) f h = h a

update_text-NotCommit :
    (msg : DecodeMessage) (body : Option Text) → NotCommit (update_text msg body)
unfolding str_eq
update_text-NotCommit msg body =
    bind-NotCommit (rel_text msg) _ (λ rel. bind-NotCommit body _ (λ text. refl))

module _ (esc : Escapes) (msg : DecodeMessage) where
  insert-NotCommit : NotCommit (insert_statement esc msg)
  unfolding insert_statement str_eq
  insert-NotCommit =
      bind-NotCommit (rel_text msg) _
        (λ rel. bind-NotCommit (append_insert_values esc msg msg.newtuple) _ (λ values. refl))

  delete-NotCommit : NotCommit (delete_statement esc msg)
  unfolding delete_statement str_eq
  delete-NotCommit = bind-NotCommit (rel_text msg) _ (λ rel.
      bind-NotCommit (append_delete_where_statement esc msg msg.oldtuple) _ (λ conditions. refl))

  update-NotCommit : NotCommit (append_update_statement esc msg)
  unfolding append_update_statement str_eq
  update-NotCommit =
      branch (msg.k_natt == 0) (not msg.has_key_or_old || msg.oldtuple.natt == 0)
        (msg.natt == msg.newtuple.natt && msg.natt == msg.oldtuple.natt) (msg.oldtuple.natt == 0)
    where
      branch :
          (a b c d : Bool)
          → NotCommit (
              if a
              then (if b
                  then some []
                  else if c
                  then update_text msg (append_update_statement_full_row esc msg)
                  else some [])
              else if d
              then update_text msg (append_update_statement_key_not_change esc msg)
              else update_text msg (append_update_statement_key_change esc msg))
      branch true true c d = refl
      branch true false true d =
          update_text-NotCommit msg (append_update_statement_full_row esc msg)
      branch true false false d = refl
      branch false b c true =
          update_text-NotCommit msg (append_update_statement_key_not_change esc msg)
      branch false b c false =
          update_text-NotCommit msg (append_update_statement_key_change esc msg)

  statement-NotCommit : (msg.kind == msgkind_commit) ≡ false → NotCommit (statement esc msg)
  unfolding statement str_eq
  statement-NotCommit other = rw other (
      branch (msg.kind == msgkind_begin) (msg.kind == msgkind_insert) (msg.kind == msgkind_update)
        (msg.kind == msgkind_delete))
    where
      branch :
          (a b c d : Bool)
          → NotCommit (
              if a
              then some (codes "begin;")
              else if false
              then some (codes "commit;")
              else if b
              then insert_statement esc msg
              else if c
              then append_update_statement esc msg
              else if d
              then delete_statement esc msg
              else none)
      branch true b c d = refl
      branch false true c d = insert-NotCommit
      branch false false true d = update-NotCommit
      branch false false false true = delete-NotCommit
      branch false false false false = tt

  coded :
      (o : Option Text) (rc : ℕ)
      → NotCommit o
      → NotCommit (map_option text_of (o >>= λ text. some (rc, text)))
  coded none rc h = tt
  coded (some text) rc h = h

  -- The statement of a message of another kind is not that of a commit.
  pub out_put_tuple_to_sql-NotCommit :
      (msg.kind == msgkind_commit) ≡ false
      → NotCommit (map_option text_of (out_put_tuple_to_sql esc msg))
  unfolding out_put_tuple_to_sql str_eq
  out_put_tuple_to_sql-NotCommit other = passes (checktuple msg == 0)
    where
      passes :
          (c : Bool)
          → NotCommit (
              map_option text_of
                (if c then (statement esc msg >>= λ text. some (0, text)) else some (1, [])))
      passes true = coded (statement esc msg) 0 (statement-NotCommit other)
      passes false = refl
