-- ===== src/TableList.antt =====
-- The file that lists the tables to copy: `load_table_list_file` (dbsync/dbsync-mysql2pgsql.c).
-- Each line holds a table's name and, behind a colon, the query that reads it.
pub mod Lines
pub mod Bounds
pub mod RoundTrip
use rds_dbsync.Base.{
  ℕ, suc, ◌+◌, Bool, true, false, ◌&&◌, ◌||◌, Option, none, some, List, [], ◌∷◌, Text, ltb, ◌==◌,
  if◌then◌else◌, ◌>>=◌, map_option, store,
}

-- A blank or a tab.
abbrev pub is_blank : ℕ → Bool
is_blank c = c == 32 || c == 9

-- The loop that counts the lines; a zero byte ends it with an error. The last line is added.
unfoldable pub count_lines : List ℕ → Option ℕ
count_lines [] = some 1
count_lines (c ∷ cs) =
    let rest = count_lines cs in
    if c == 0 then none else if c == 10 then map_option suc rest else rest

abbrev pub longer : ℕ → List (List ℕ) → List (List ℕ)
longer c [] = (c ∷ []) ∷ []
longer c (line ∷ lines) = (c ∷ line) ∷ lines

-- The bytes from each `table_begin` to the `p` at which the loop ends the line.
unfoldable pub lines_of : List ℕ → List (List ℕ)
lines_of [] = [] ∷ []
lines_of (c ∷ cs) = let rest = lines_of cs in if c == 10 then [] ∷ rest else longer c rest

-- `table_begin` and `query_begin` step over leading blanks.
unfoldable pub skip_blanks : List ℕ → List ℕ
skip_blanks [] = []
skip_blanks (c ∷ cs) = let rest = skip_blanks cs in if is_blank c then rest else c ∷ cs

-- `table_end` steps to the first colon or to the line's end.
unfoldable pub up_to_colon : List ℕ → List ℕ
up_to_colon [] = []
up_to_colon (c ∷ cs) = let rest = c ∷ up_to_colon cs in if c == 58 then [] else rest

-- What `query_begin = table_end + 1` points at; behind the line's end there is nothing.
unfoldable pub behind_colon : List ℕ → List ℕ
behind_colon [] = []
behind_colon (c ∷ cs) = let rest = behind_colon cs in if c == 58 then cs else rest

-- `table_end` steps back over blanks, not before `table_begin`.
abbrev unless_blank : ℕ → List ℕ → List ℕ
unless_blank c [] = if is_blank c then [] else c ∷ []
unless_blank c (d ∷ ds) = c ∷ d ∷ ds

unfoldable pub trim_end : List ℕ → List ℕ
trim_end [] = []
trim_end (c ∷ cs) = unless_blank c (trim_end cs)

abbrev pub null_if_empty : List ℕ → Option Text
null_if_empty [] = none
null_if_empty (c ∷ cs) = some (c ∷ cs)

-- The two arrays, of `num_lines + 1` cells that hold NULL at first, and `cur_table`.
pub record Arrays : Type 0 where
  pub capacity : ℕ
  pub table_array : ℕ → Option Text
  pub query_array : ℕ → Option Text
  pub cur_table : ℕ

-- What a line adds; `none` where the code writes outside the arrays.
unfoldable pub add_table : Arrays → Option Text → Option Text → Option Arrays
add_table a none query = some a
add_table a (some table) query =
    if ltb a.cur_table a.capacity
    then some (record {
      capacity = a.capacity;
      table_array = store a.table_array a.cur_table (some table);
      query_array = store a.query_array a.cur_table query;
      cur_table = a.cur_table + 1;
    })
    else none

-- The name and the query of a line.
unfoldable pub table_of : List ℕ → Option Text
table_of line = null_if_empty (trim_end (up_to_colon (skip_blanks line)))

unfoldable pub query_of : List ℕ → Option Text
query_of line = null_if_empty (skip_blanks (behind_colon (skip_blanks line)))

-- The loop `while(p <= tail)`, one step for each line.
unfoldable pub add_lines : List (List ℕ) → Arrays → Option Arrays
add_lines [] a = some a
add_lines (line ∷ lines) a = add_table a (table_of line) (query_of line) >>= add_lines lines

-- The whole function on the bytes that `fread` gives, `none` where the file cannot be read. The
-- result is `none` where the function returns -1 or leaves its arrays.
unfoldable pub load_table_list_file : Option (List ℕ) → Option Arrays
load_table_list_file none = none
load_table_list_file (some bytes) = count_lines bytes >>= λ num_lines.
    add_lines (lines_of bytes) (record {
      capacity = num_lines + 1;
      table_array = λ i. none;
      query_array = λ i. none;
      cur_table = 0;
    })
