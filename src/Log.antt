-- ===== src/Log.antt =====
-- dbsync/utils.c 49-116, 671-789 and 1318-1346: the log of the decoded messages, a file or the
-- standard output. A function returns what it appends to the buffer; `none` is a null pointer that
-- is read. What goes to the standard error is left out.
pub mod Writes
use rds_dbsync.Base.{
  ℕ, zero, suc, ◌+◌, ◌-◌, ◌/◌, ◌%◌, Bool, true, false, not, ◌&&◌, Option, none, some, List, [], ◌∷◌,
  ◌++◌, Text, codes, str_eq, length, ltb, ◌==◌, if◌then◌else◌, ◌>>=◌, take, drop,
}
use rds_dbsync.Message.{
  DecodeTupleData, DecodeMessage, msgkind_insert, msgkind_update, msgkind_delete, rounds,
}
use rds_dbsync.Quote.{Escapes}
use rds_dbsync.Sql.{is_null_cell, is_unchanged_cell, out_put_tuple_to_sql}

-- `%d` of a number of at most so many digits.
unfoldable pub decimal : ℕ → ℕ → Text
decimal zero n = []
decimal (suc k) n =
    let front = decimal k (n / 10) in
    if ltb n 10 then (48 + n) ∷ [] else front ++ (48 + n % 10) ∷ []

unfoldable pub key_names : DecodeMessage → ℕ → ℕ → Option Text
key_names msg zero i = some []
key_names msg (suc n) i = do
  name ← msg.k_attname i
  rest ← key_names msg n (suc i)
  some (codes " " ++ (name ++ rest))

unfoldable pub out_put_key_att : DecodeMessage → Option Text
out_put_key_att msg =
    let names = key_names msg (rounds msg.k_natt) 0 in
    if rounds msg.k_natt == 0
    then some []
    else (names >>= λ text. some (codes "key column" ++ (text ++ codes "\n")))

-- What is printed for a cell; `none` ends the function.
abbrev pub printed : DecodeTupleData → ℕ → Option Text
printed tuple i =
    if is_null_cell tuple i
    then some (codes "{null}")
    else if is_unchanged_cell tuple i
    then some (codes "{unchanged toast column}")
    else tuple.svalues i

-- The line of a column: its name and its type, if it is not dropped.
abbrev pub column_line : ℕ → Option Text → Option Text → Text → Option Text
column_line i none atttype value = some (decimal 10 i ++ codes " dropped\n")
column_line i (some name) none value = none
column_line i (some name) (some type_name) value = some (
    decimal 10 i
    ++ (codes " "
        ++ (name ++ (codes "[" ++ (type_name ++ (codes "]'" ++ (value ++ codes "'\n")))))))

abbrev pub then_lines : Option Text → (Text → Option Text) → Option Text
then_lines none f = some []
then_lines (some value) f = f value

unfoldable pub tuple_lines : DecodeMessage → DecodeTupleData → ℕ → ℕ → Option Text
tuple_lines msg tuple zero i = some []
tuple_lines msg tuple (suc n) i =
    let rest = tuple_lines msg tuple n (suc i) in
    then_lines (printed tuple i) (λ value.
      column_line i (msg.attname i) (msg.atttype i) value >>= λ line.
      rest >>= λ more. some (line ++ more))

unfoldable pub out_put_tuple : DecodeMessage → DecodeTupleData → Option Text
out_put_tuple msg tuple =
    let lines = tuple_lines msg tuple (rounds msg.natt) 0 in
    if tuple.natt == 0 then some [] else if not (tuple.natt == msg.natt) then some [] else lines

-- `%s TABLE %s.%s\n`.
abbrev pub table_line : Text → DecodeMessage → Option Text
table_line action msg = do
  schema ← msg.schemaname
  table ← msg.relname
  some (action ++ (codes " TABLE " ++ (schema ++ (codes "." ++ (table ++ codes "\n")))))

abbrev pub titled : Text → Option Text → Option Text
titled title text = text >>= λ t. some (title ++ t)

-- The old row or the key of an update or a delete.
unfoldable pub old_lines : DecodeMessage → Option Text
old_lines msg =
    if not msg.has_key_or_old
    then some (codes "null old or key tuple\n")
    else if msg.natt == msg.oldtuple.natt
    then titled (codes "old tuple:\n") (out_put_tuple msg msg.oldtuple)
    else titled (codes "key tuple:\n") (out_put_tuple msg msg.oldtuple)

abbrev pub new_lines : DecodeMessage → Option Text
new_lines msg = titled (codes "new tuple:\n") (out_put_tuple msg msg.newtuple)

abbrev pub joined : Option Text → Option Text → Option Text
joined a b = a >>= λ s. b >>= λ t. some (s ++ t)

-- The `switch` of the verbose mode; a kind that is none of these adds nothing.
unfoldable pub verbose_text : DecodeMessage → Option Text
verbose_text msg =
    if msg.kind == msgkind_insert
    then joined (table_line (codes "INSERT") msg) (new_lines msg)
    else if msg.kind == msgkind_update
    then joined (table_line (codes "UPDATE") msg)
        (joined (out_put_key_att msg) (joined (new_lines msg) (old_lines msg)))
    else if msg.kind == msgkind_delete
    then joined (table_line (codes "DELETE") msg) (joined (out_put_key_att msg) (old_lines msg))
    else some []

-- What `write` answers: so many bytes, but at most those that it is given; or -1.
pub data Answer : Type 0 where
  took : ℕ → Answer
  refused : Answer

-- The loop is left, with the answers that are not used; more answers are needed; or what stands
-- before the buffer is written.
pub data Written : Type 0 where
  ended : Text → List Answer → Written
  writing : Text → Written
  overrun : Written

-- The loop `while (bytes_left)`, where `bytes_left` is what the text has behind `bytes_written`: an
-- error moves both by one, to the other side.
unfoldable pub write_loop : Text → List Answer → ℕ → Text → Written
write_loop text [] written file = if written == length text then ended file [] else writing file
write_loop text (took n ∷ answers) written file =
    let left = length text - written in
    let taken = if ltb left n then left else n in
    let rest = write_loop text answers (written + taken) (file ++ take taken (drop written text)) in
    if written == length text then ended file (took n ∷ answers) else rest
write_loop text (refused ∷ answers) zero file =
    if 0 == length text then ended file (refused ∷ answers) else overrun
write_loop text (refused ∷ answers) (suc written) file =
    let rest = write_loop text answers written file in
    if suc written == length text then ended file (refused ∷ answers) else rest

-- The line feed behind it, which is tried once.
abbrev pub line_feed : Written → Written
line_feed (ended file []) = writing file
line_feed (ended file (took zero ∷ answers)) = ended file answers
line_feed (ended file (took (suc n) ∷ answers)) = ended (file ++ codes "\n") answers
line_feed (ended file (refused ∷ answers)) = ended file answers
line_feed (writing file) = writing file
line_feed overrun = overrun

module _ (esc : Escapes) (verbose : Bool) where
  -- The buffer; what `out_put_tuple_to_sql` returns is not looked at.
  unfoldable pub message_text : DecodeMessage → Option Text
  message_text msg = do
    description ← if verbose then verbose_text msg else some []
    (rc, sql) ← out_put_tuple_to_sql esc msg
    some (description ++ sql)

  unfoldable pub out_put_decode_message : DecodeMessage → List Answer → Text → Option Written
  out_put_decode_message msg answers file =
      message_text msg >>= λ text. some (line_feed (write_loop text answers 0 file))

-- `init_logfile`: the return code, and `outfd`; `open` is what the call for the path returns, `none`
-- for -1. An `outfd` that is not -1, and no `outfile`, end in an error.
abbrev opened : Option ℕ → ℕ × Option ℕ
opened none = (1, none)
opened (some fd) = (0, some fd)

unfoldable pub init_logfile : Option ℕ → Option Text → (Text → Option ℕ) → ℕ × Option ℕ
init_logfile (some fd) outfile open_file = (1, some fd)
init_logfile none none open_file = (1, none)
init_logfile none (some path) open_file =
    opened (if str_eq path (codes "-") then some 1 else open_file path)
