-- ===== src/Sql/Choice.antt =====
-- The parts of dbsync/utils.c that the statements share: which columns a loop keeps, the list of
-- the names, and the table.
use rds_dbsync.Base.{
  ℕ, zero, suc, ◌+◌, Bool, true, false, ◌&&◌, ◌||◌, not, Option, none, some, [], ◌++◌, Text, codes,
  str_eq, ltb, ◌==◌, if◌then◌else◌, ◌>>=◌,
}
use rds_dbsync.Message.{
  DecodeTupleData, DecodeMessage, msgkind_insert, msgkind_update, msgkind_delete, rounds,
}

abbrev is_null {ℓ} : {A : Type ℓ} → Option A → Bool
is_null none = true
is_null (some a) = false

-- `isnull[i] && changed[i] && svalues[i] == NULL`.
abbrev pub is_null_cell : DecodeTupleData → ℕ → Bool
is_null_cell tuple i = tuple.isnull i && (tuple.changed i && is_null (tuple.svalues i))

-- `isnull[i] && changed[i] == false && svalues[i] == NULL`.
abbrev pub is_unchanged_cell : DecodeTupleData → ℕ → Bool
is_unchanged_cell tuple i = tuple.isnull i && (not (tuple.changed i) && is_null (tuple.svalues i))

-- A loop over the columns from `i` on that skips some, and writes `sep` before each but the first
-- that it keeps.
unfoldable pub join_loop : Text → (ℕ → Option Bool) → (ℕ → Option Text) → ℕ → ℕ → Bool → Option Text
join_loop sep keep emit zero i first = some []
join_loop sep keep emit (suc n) i first =
    let skipped = join_loop sep keep emit n (suc i) first in
    let rest = join_loop sep keep emit n (suc i) false in
    keep i >>= λ kept.
    if kept
    then (emit i >>= λ text. rest >>= λ more. some ((if first then [] else sep) ++ (text ++ more)))
    else skipped

unfoldable pub checktuple : DecodeMessage → ℕ
checktuple msg =
    let has_new = msg.kind == msgkind_insert || msg.kind == msgkind_update in
    if msg.kind == msgkind_delete && not msg.has_key_or_old
    then 1
    else if has_new && msg.newtuple.natt == 0
    then 1
    else if msg.kind == msgkind_delete && msg.oldtuple.natt == 0
    then 1
    else if has_new && not (msg.newtuple.natt == msg.natt)
    then 1
    else 0

-- From the key column `j` on.
unfoldable pub key_loop : DecodeMessage → Text → ℕ → ℕ → Option Bool
key_loop msg colname zero j = some false
key_loop msg colname (suc n) j =
    let rest = key_loop msg colname n (suc j) in
    msg.k_attname j >>= λ key. if str_eq colname key then some true else rest

unfoldable pub is_key_column : DecodeMessage → Option Text → Option Bool
unfolding key_loop
is_key_column msg none = some false
is_key_column msg (some colname) = key_loop msg colname (rounds msg.k_natt) 0

-- `attname[i] != NULL`.
abbrev pub is_live : DecodeMessage → ℕ → Option Bool
is_live msg i = some (not (is_null (msg.attname i)))

-- A live column, which has to be a key column where the message names a key.
unfoldable pub is_where_column : DecodeMessage → ℕ → Option Bool
is_where_column msg i =
    if is_null (msg.attname i)
    then some false
    else if ltb 0 (rounds msg.k_natt)
    then is_key_column msg (msg.attname i)
    else some true

-- A live column that is not a key column.
unfoldable pub is_set_column : DecodeMessage → ℕ → Option Bool
is_set_column msg i =
    if is_null (msg.attname i)
    then some false
    else if ltb 0 (rounds msg.k_natt)
    then (is_key_column msg (msg.attname i) >>= λ is_key. some (not is_key))
    else some true

-- One round of `append_insert_colname`.
abbrev pub insert_colname : ℕ → Option Text → ℕ → Text
insert_colname natt none i = []
insert_colname natt (some name) i = name ++ (if (i + 1) == natt then [] else codes ",")

unfoldable pub insert_colnames : DecodeMessage → ℕ → ℕ → ℕ → Text
insert_colnames msg natt zero i = []
insert_colnames msg natt (suc n) i =
    insert_colname natt (msg.attname i) i ++ insert_colnames msg natt n (suc i)

unfoldable pub append_insert_colname : DecodeMessage → DecodeTupleData → Text
append_insert_colname msg tuple =
    codes "(" ++ (insert_colnames msg tuple.natt (rounds tuple.natt) 0 ++ codes ") ")

-- `droped[i]`, `old_isnull[i]` and `uchange_toast[i]` after the loop over the old tuple.
abbrev in_old : DecodeMessage → ℕ → Bool
in_old msg i = ltb i (rounds msg.oldtuple.natt)

unfoldable pub droped : DecodeMessage → ℕ → Bool
droped msg i = in_old msg i && is_null (msg.attname i)

abbrev old_isnull : DecodeMessage → ℕ → Bool
old_isnull msg i = in_old msg i && (not (is_null (msg.attname i)) && is_null_cell msg.oldtuple i)

abbrev uchange_toast : DecodeMessage → ℕ → Bool
uchange_toast msg i =
    in_old msg i && (not (is_null (msg.attname i)) && is_unchanged_cell msg.oldtuple i)

-- `strcmp(new, old) != 0`, and `false` if either is NULL.
abbrev differ : Option Text → Option Text → Bool
differ (some new) (some old) = not (str_eq new old)
differ _ _ = false

-- `change[i]` after the second loop.
unfoldable pub change : DecodeMessage → ℕ → Bool
change msg i =
    if is_null_cell msg.newtuple i
    then not (old_isnull msg i)
    else if is_unchanged_cell msg.newtuple i
    then false
    else if old_isnull msg i
    then true
    else if uchange_toast msg i
    then false
    else differ (msg.newtuple.svalues i) (msg.oldtuple.svalues i)

abbrev pub is_changed_column : DecodeMessage → ℕ → Option Bool
is_changed_column msg i = some (not (droped msg i) && change msg i)

-- `schema.table `, as `%s.%s ` prints it.
abbrev pub rel_text : DecodeMessage → Option Text
rel_text msg = do
  schema ← msg.schemaname
  table ← msg.relname
  some (schema ++ (codes "." ++ (table ++ codes " ")))

abbrev pub update_text : DecodeMessage → Option Text → Option Text
update_text msg body = do rel ← rel_text msg; text ← body; some (codes "UPDATE " ++ (rel ++ text))
