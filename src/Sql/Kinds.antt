-- ===== src/Sql/Kinds.antt =====
-- What dbsync/utils.c does with a message that stands for a row message, before it comes to the
-- columns: the kind of statement, the checks, and the table.
use rds_dbsync.Base.{
  ℕ, ◌<◌, ◌≡◌, refl, true, false, Option, none, some, List, [], ◌++◌, Text, codes, length, ◌==◌,
  ==_self, ◌>>=◌, map_option,
}
use rds_dbsync.Message.{DecodeMessage, DecodeTupleData, rounds}
use rds_dbsync.Wire.{
  Cell, RowMessage, message_of, change_kind, tuple_of, update, delete, names_or_nil, FitsMessage,
  FitsRow,
}
use rds_dbsync.Quote.{Escapes}
use rds_dbsync.Sql.{
  join_loop, append_values, append_update_statement, update_text, rel_text, delete_statement,
  statement, checktuple, is_where_column,
}
use rds_dbsync.Sql.Cells.{in_where, is_where_column_lem}
use rds_dbsync.Sql.Equations.{equations, join_loop-equations, in_where-is_live}
use rds_dbsync.Sql.Statements.{describes_lem, positive, relation_text}

abbrev pub key_of : RowMessage → List Text
key_of m = names_or_nil m.key

pub with_code :
    (o : Option Text) → ◌>>=◌ {B = ℕ × Text} o (λ text. some (0, text)) ≡ map_option (λ t. (0, t)) o
with_code none = refl
with_code (some t) = refl

pub newtuple-update :
    (m : RowMessage) (old : Option (List Cell)) (row : List Cell)
    → m.change ≡ update old row
    → (message_of m).newtuple ≡ tuple_of row
unfolding message_of
newtuple-update m old row e = rw e refl

pub checktuple-update :
    (m : RowMessage) (old : Option (List Cell)) (row : List Cell)
    → m.change ≡ update old row
    → length row ≡ length m.columns
    → 0 < length row
    → checktuple (message_of m) ≡ 0
unfolding checktuple message_of change_kind
checktuple-update m old row e h pos =
    rw e (rw (positive (length row) pos) (rw (h, ==_self (length m.columns)) refl))

pub keyed_lem : (m : RowMessage) → 0 < length (key_of m) → ((message_of m).k_natt == 0) ≡ false
unfolding message_of
keyed_lem m h = positive (length (key_of m)) h

pub no_old :
    (m : RowMessage) (row : List Cell)
    → m.change ≡ update none row
    → ((message_of m).oldtuple.natt == 0) ≡ true
unfolding message_of
no_old m row e = rw e refl

pub unkeyed_lem : (m : RowMessage) → key_of m ≡ [] → ((message_of m).k_natt == 0) ≡ true
unfolding message_of
unkeyed_lem m h = rw h refl

pub no_row :
    (m : RowMessage) (row : List Cell)
    → m.change ≡ update none row
    → (message_of m).has_key_or_old ≡ false
unfolding message_of
no_row m row e = rw e refl

pub oldtuple-update :
    (m : RowMessage) (old row : List Cell)
    → m.change ≡ update (some old) row
    → (message_of m).oldtuple ≡ tuple_of old
unfolding message_of
oldtuple-update m old row e = rw e refl

pub with_old :
    (m : RowMessage) (old row : List Cell)
    → m.change ≡ update (some old) row
    → 0 < length old
    → ((message_of m).oldtuple.natt == 0) ≡ false
unfolding message_of
with_old m old row e h = rw e (positive (length old) h)

abbrev pub update_sql : RowMessage → Option Text → Option Text → Option Text
update_sql m where_part set_part = where_part >>= λ where_text. set_part >>= λ set_text. some (
    codes "UPDATE "
    ++ (relation_text m
        ++ (codes " SET " ++ (set_text ++ (codes " WHERE " ++ (where_text ++ codes ";"))))))

pub checktuple-delete :
    (m : RowMessage) (old : List Cell)
    → m.change ≡ delete (some old)
    → 0 < length old
    → checktuple (message_of m) ≡ 0
unfolding checktuple message_of change_kind
checktuple-delete m old e pos = rw e (rw (positive (length old) pos) refl)

pub oldtuple-delete :
    (m : RowMessage) (old : List Cell)
    → m.change ≡ delete (some old)
    → (message_of m).oldtuple ≡ tuple_of old
unfolding message_of
oldtuple-delete m old e = rw e refl

pub rel_text-message_of : (m : RowMessage) → rel_text (message_of m) ≡ some (relation_text m)
unfolding message_of
rel_text-message_of m = refl

-- An update that the handlers can make a statement of: what it sets, and the row it looks for.
pub update_lem :
    (msg : DecodeMessage) (m : RowMessage) (w s : Option Text) (body : Option Text)
    → rel_text msg ≡ some (relation_text m)
    → body ≡ (
        w >>= λ where_text. s >>= λ set_text.
        some (codes " SET " ++ (set_text ++ (codes " WHERE " ++ (where_text ++ codes ";")))))
    → update_text msg body ≡ update_sql m w s
update_lem msg m w s body hr hb = rw (hr, hb) (by_cases w s)
  where
    by_cases :
        (w s : Option Text)
        → ((w >>= λ where_text. s >>= λ set_text.
              some (codes " SET " ++ (set_text ++ (codes " WHERE " ++ (where_text ++ codes ";")))))
            >>= λ t. some (codes "UPDATE " ++ (relation_text m ++ t)))
          ≡ update_sql m w s
    by_cases none s = refl
    by_cases (some w) none = refl
    by_cases (some w) (some s) = refl

module _ (esc : Escapes) where
  -- The columns of the key, or all of them, in a WHERE.
  abbrev pub conditions : RowMessage → List Cell → Option Text
  conditions m row = equations esc (codes " AND ") (in_where (key_of m)) m.columns row

  pub conditions_lem :
      (m : RowMessage) (tuple : DecodeTupleData) (row : List Cell)
      → FitsMessage m
      → tuple ≡ tuple_of row
      → FitsRow row
      → length row ≡ length m.columns
      → join_loop
          (codes " AND ")
          (is_where_column (message_of m))
          (append_values esc (message_of m) tuple)
          (rounds tuple.natt)
          0
          true
        ≡ conditions m row
  conditions_lem m tuple row fits ht fr h =
      join_loop-equations esc (message_of m) m.columns (key_of m) tuple row (codes " AND ")
        (is_where_column (message_of m)) (in_where (key_of m)) (describes_lem m fits) ht fr h
        (λ i k. is_where_column_lem (message_of m) m.columns (key_of m) i (describes_lem m fits))
        (in_where-is_live (key_of m))

  pub statement-update :
      (m : RowMessage) (old : Option (List Cell)) (row : List Cell)
      → m.change ≡ update old row
      → statement esc (message_of m) ≡ append_update_statement esc (message_of m)
  unfolding statement message_of change_kind
  statement-update m old row e = rw e refl

  pub statement-delete :
      (m : RowMessage) (old : List Cell)
      → m.change ≡ delete (some old)
      → statement esc (message_of m) ≡ delete_statement esc (message_of m)
  unfolding statement message_of change_kind
  statement-delete m old e = rw e refl
