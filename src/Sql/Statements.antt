-- ===== src/Sql/Statements.antt =====
-- The insert and the delete statements of dbsync/utils.c, for a message that stands for a row
-- message.
use rds_dbsync.Base.{
  ℕ, suc, ◌+◌, ◌≤◌, ◌<◌, ◌≡◌, refl, sym, ap, ◌∙◌, true, false, Option, none, some, List, [], ◌∷◌,
  ◌++◌, append_assoc, arith, Text, codes, length, length-snoc, get_or, ◌==◌, ==_self, if◌then◌else◌,
  ◌>>=◌, subst,
}
use rds_dbsync.Message.{DecodeMessage, DecodeTupleData, rounds_small, max_tuple_attribute_number}
use rds_dbsync.Wire.{
  Column, dropped, live, Cell, null, unchanged, value, RowMessage, message_of, change_kind,
  column_name, column_type, tuple_of, insert, names_or_nil, FitsMessage, FitsKey, FitsRow,
  FitsOption, new_row,
}
use rds_dbsync.Quote.{Escapes, typed_literal}
use rds_dbsync.Sql.{
  insert_colname, insert_colnames, append_insert_colname, append_insert_values, rel_text,
  insert_statement, statement, checktuple, out_put_tuple_to_sql,
}
use rds_dbsync.Sql.Loops.{join, join_loop-texts, get_or-map, texts-kept, kept, all_known}
use rds_dbsync.Sql.Cells.{Describes, is_live_column, insert_text, is_live_lem, insert_value_lem}

key_bound_lem :
    (key : Option (List Text))
    → FitsOption FitsKey key
    → length (names_or_nil key) ≤ max_tuple_attribute_number
key_bound_lem none h = omega arith
key_bound_lem (some names) h = h.1

pub describes_lem :
    (m : RowMessage) → FitsMessage m → Describes (message_of m) m.columns (names_or_nil m.key)
unfolding message_of
describes_lem m h = record {
  names = λ i. get_or-map column_name m.columns i dropped;
  types = λ i. get_or-map column_type m.columns i dropped;
  key_count = refl;
  key_bound = key_bound_lem m.key h.key_fits;
  key_names = refl;
}

pub positive : (n : ℕ) → 0 < n → (n == 0) ≡ false
positive n h = ground arith

-- The column names, with a comma behind each but that of the last column.
pub names_text : List Column → Text
names_text [] = []
names_text (dropped ∷ columns) = names_text columns
names_text (live name type_name ∷ columns) =
    name ++ ((if length columns == 0 then [] else codes ",") ++ names_text columns)

last_test : (n i rest : ℕ) → n ≡ i + suc rest → (i + 1 == n) ≡ (rest == 0)
last_test n i rest h = ground arith

all_known-true :
    (columns : List Column) (row : List Cell)
    → all_known is_live_column (λ c. true) columns row ≡ true
unfolding all_known
all_known-true [] row = refl
all_known-true (c ∷ columns) [] = refl
all_known-true (dropped ∷ columns) (cell ∷ row) = all_known-true columns row
all_known-true (live n t ∷ columns) (cell ∷ row) = all_known-true columns row

get_or-done :
    (done : List Column) (c : Column) (todo : List Column)
    → get_or (done ++ c ∷ todo) (length done) dropped ≡ c
get_or-done [] c todo = refl
get_or-done (d ∷ done) c todo = get_or-done done c todo

name_step :
    (n i : ℕ) (c : Column) (todo : List Column)
    → n ≡ i + suc (length todo)
    → insert_colname n (column_name c) i ++ names_text todo ≡ names_text (c ∷ todo)
unfolding names_text
name_step n i dropped todo h = refl
name_step n i (live name type_name) todo h = rw (last_test n i (length todo) h, append_assoc) refl

insert_colnames-names_text :
    (msg : DecodeMessage) (n i : ℕ) (done todo : List Column)
    → ((j : ℕ) → msg.attname j ≡ column_name (get_or (done ++ todo) j dropped))
    → i ≡ length done
    → n ≡ i + length todo
    → insert_colnames msg n (length todo) i ≡ names_text todo
unfolding insert_colnames names_text
insert_colnames-names_text msg n i done [] h hi hn = refl
insert_colnames-names_text msg n i done (c ∷ todo) h hi hn =
    let name_at : msg.attname i ≡ column_name c =
      h i
      ∙ ap (λ j. column_name (get_or (done ++ c ∷ todo) j dropped)) hi
      ∙ ap column_name (get_or-done done c todo) in
    let behind : insert_colnames msg n (length todo) (suc i) ≡ names_text todo =
      insert_colnames-names_text msg n (suc i) (done ++ c ∷ []) todo
        (λ j. h j ∙ (rw append_assoc refl)) (omega (arith, length-snoc done c)) (omega arith) in
    rw (name_at, behind) (name_step n i c todo hn)

append_insert_colname_lem :
    (msg : DecodeMessage) (columns : List Column) (key : List Text) (tuple : DecodeTupleData)
    → Describes msg columns key
    → tuple.natt ≡ length columns
    → length columns ≤ max_tuple_attribute_number
    → append_insert_colname msg tuple ≡ codes "(" ++ (names_text columns ++ codes ") ")
unfolding append_insert_colname
append_insert_colname_lem msg columns key tuple d hn hb =
    rw
      (
        hn,
        rounds_small (length columns) hb,
        insert_colnames-names_text msg (length columns) 0 [] columns d.names refl (omega arith),
      )
      refl

-- The table in a statement.
abbrev pub relation_text : RowMessage → Text
relation_text m = m.schema ++ (codes "." ++ (m.table ++ codes " "))

module _ (esc : Escapes) where
  -- The value of a cell of an insert; an unchanged cell is a null too.
  abbrev pub value_text : Column → Cell → Text
  value_text (live name type_name) (value t) = typed_literal esc t type_name
  value_text column cell = codes "null"

  abbrev values_sql : List Column → List Cell → Text
  values_sql columns row =
      codes "VALUES("
      ++ (join (codes ", ") true (kept is_live_column value_text columns row) ++ codes ");")

  pub insert_sql : RowMessage → List Cell → Text
  insert_sql m row =
      codes "INSERT INTO "
      ++ (relation_text m
          ++ ((codes "(" ++ (names_text m.columns ++ codes ") ")) ++ values_sql m.columns row))

  insert_text_lem :
      (column : Column) (cell : Cell)
      → is_live_column column ≡ true
      → insert_text esc column cell ≡ some (value_text column cell)
  insert_text_lem dropped cell h = cc
  insert_text_lem (live name type_name) null h = refl
  insert_text_lem (live name type_name) unchanged h = refl
  insert_text_lem (live name type_name) (value t) h = refl

  append_insert_values_lem :
      (msg : DecodeMessage) (columns : List Column) (key : List Text) (row : List Cell)
      → Describes msg columns key
      → length row ≡ length columns
      → FitsRow row
      → append_insert_values esc msg (tuple_of row) ≡ some (values_sql columns row)
  unfolding append_insert_values
  append_insert_values_lem msg columns key row d h fits = rw (rounds_small (length row) fits.1) (
      rw
        (join_loop-texts dropped (codes ", ") is_live_column (insert_text esc) columns row _ _ h
          (λ i k. is_live_lem msg columns key i d)
          (λ i. insert_value_lem esc msg columns key row i d))
        (rw
          (
            texts-kept is_live_column (λ c. true) (insert_text esc) value_text columns row
                insert_text_lem,
            all_known-true columns row,
          )
          refl))

  checktuple-insert :
      (m : RowMessage) (row : List Cell)
      → m.change ≡ insert row
      → length row ≡ length m.columns
      → 0 < length row
      → checktuple (message_of m) ≡ 0
  unfolding checktuple message_of change_kind
  checktuple-insert m row e h pos =
      rw e (rw (positive (length row) pos) (rw (h, ==_self (length m.columns)) refl))

  statement-insert :
      (m : RowMessage) (row : List Cell)
      → m.change ≡ insert row
      → statement esc (message_of m) ≡ insert_statement esc (message_of m)
  unfolding statement message_of change_kind
  statement-insert m row e = rw e refl

  insert_statement_lem :
      (msg : DecodeMessage) (rel names values : Text)
      → rel_text msg ≡ some rel
      → append_insert_colname msg msg.newtuple ≡ names
      → append_insert_values esc msg msg.newtuple ≡ some values
      → insert_statement esc msg ≡ some (codes "INSERT INTO " ++ (rel ++ (names ++ values)))
  unfolding insert_statement
  insert_statement_lem msg rel names values hr hn hv = rw (hr, ◌>>=◌) (rw (hv, ◌>>=◌) (rw hn refl))

  newtuple-insert :
      (m : RowMessage) (row : List Cell)
      → m.change ≡ insert row
      → (message_of m).newtuple ≡ tuple_of row
  unfolding message_of
  newtuple-insert m row e = rw e refl

  rel_text-message_of : (m : RowMessage) → rel_text (message_of m) ≡ some (relation_text m)
  unfolding message_of
  rel_text-message_of m = refl

  -- An insert, where the message fits the wire and the row has a cell for each column and at
  -- least one, becomes an INSERT that names the table, lists the columns that are not dropped,
  -- with a comma behind each but the last column of the table, and gives each of them the literal
  -- of its cell, a null and an unchanged cell both as null.
  pub out_put_tuple_to_sql-insert :
      (m : RowMessage) (row : List Cell)
      → m.change ≡ insert row
      → FitsMessage m
      → length row ≡ length m.columns
      → 0 < length row
      → out_put_tuple_to_sql esc (message_of m) ≡ some (0, insert_sql m row)
  unfolding out_put_tuple_to_sql insert_sql
  out_put_tuple_to_sql-insert m row e fits h pos =
      let fr : FitsRow row = subst (λ c. FitsOption FitsRow (new_row c)) e fits.new_fits in
      let d : Describes (message_of m) m.columns (names_or_nil m.key) = describes_lem m fits in
      let new : (message_of m).newtuple ≡ tuple_of row = newtuple-insert m row e in
      rw (checktuple-insert m row e h pos, statement-insert m row e)
        (rw
          (
            insert_statement_lem (message_of m) (relation_text m)
                (codes "(" ++ (names_text m.columns ++ codes ") ")) (values_sql m.columns row)
                (rel_text-message_of m)
                (append_insert_colname_lem (message_of m) m.columns (names_or_nil m.key)
                  (message_of m).newtuple d (rw new h) fits.columns_bound)
                (subst
                  (λ t. append_insert_values esc (message_of m) t ≡ some (values_sql m.columns row))
                  (sym new)
                  (append_insert_values_lem (message_of m) m.columns (names_or_nil m.key) row d h
                    fr)),
            ◌>>=◌,
          )
          refl)
