-- ===== src/TableList/Bounds.antt =====
-- The arrays that `load_table_list_file` fills.
use rds_dbsync.Base.{
  ℕ, suc, ◌+◌, ◌<◌, ◌≤◌, ◌≡◌, refl, sym, ◌∙◌, Bool-cases, inl, inr, Option, none, some, List, [],
  ◌∷◌, ◌++◌, map, arith, Text, All, ◌==◌, if◌then◌else◌, map_option, length, length-append,
  length-snoc, array, store-array-map, append_assoc, append-nil, lt→ltb, ◌>>=◌,
}
use rds_dbsync.TableList.{
  count_lines, lines_of, longer, Arrays, add_table, table_of, query_of, add_lines,
  load_table_list_file,
}

-- A table and its query.
abbrev pub Entry : Type 0
Entry = Text × Option Text

abbrev pub table_cell : Entry → Option Text
table_cell e = some e.0

abbrev pub query_cell : Entry → Option Text
query_cell e = e.1

abbrev entry_of : Option Text → Option Text → List Entry
entry_of none query = []
entry_of (some table) query = (table, query) ∷ []

-- The entries of the lines, in the order of the file; a line without a name has none.
abbrev pub entries : List (List ℕ) → List Entry
entries [] = []
entries (line ∷ lines) = entry_of (table_of line) (query_of line) ++ entries lines

-- Arrays that hold these entries, and NULL behind them.
abbrev pub arrays_of : ℕ → List Entry → Arrays
arrays_of capacity es = record {
  capacity = capacity;
  table_array = array none (map table_cell es);
  query_array = array none (map query_cell es);
  cur_table = length es;
}

add_one : (n : ℕ) → n + 1 ≡ suc n
add_one n = omega arith

add_table-some :
    (n : ℕ) (es : List Entry) (e : Entry)
    → length es < n
    → add_table (arrays_of n es) (some e.0) e.1 ≡ some (arrays_of n (es ++ e ∷ []))
unfolding add_table
add_table-some n es e h = rw (lt→ltb (length es) n h) (λ i. some (record {
  capacity = n;
  table_array = store-array-map table_cell none es e i;
  query_array = store-array-map query_cell none es e i;
  cur_table = (add_one (length es) ∙ sym (length-snoc es e)) i;
}))

add_table-entry_of :
    (n : ℕ) (es : List Entry) (table query : Option Text)
    → length es < n
    → add_table (arrays_of n es) table query ≡ some (arrays_of n (es ++ entry_of table query))
unfolding add_table
add_table-entry_of n es none query h = rw (append-nil es) refl
add_table-entry_of n es (some table) query h = add_table-some n es (table, query) h

length-entry_of : (table query : Option Text) → length (entry_of table query) ≤ 1
length-entry_of none query = omega arith
length-entry_of (some table) query = omega arith

length-snoc_entries :
    (es : List Entry) (table query : Option Text)
    → length (es ++ entry_of table query) ≤ length es + 1
length-snoc_entries es table query =
    omega (arith, length-append es (entry_of table query), length-entry_of table query)

length-entries : (lines : List (List ℕ)) → length (entries lines) ≤ length lines
length-entries [] = omega arith
length-entries (line ∷ lines) =
    let added = entry_of (table_of line) (query_of line) in
    omega (
      arith,
      length-append added (entries lines),
      length-entry_of (table_of line) (query_of line),
      length-entries lines,
    )

add_lines-arrays_of :
    (n : ℕ) (es : List Entry) (lines : List (List ℕ))
    → length es + length lines < n
    → add_lines lines (arrays_of n es) ≡ some (arrays_of n (es ++ entries lines))
unfolding add_lines
add_lines-arrays_of n es [] h = rw (append-nil es) refl
add_lines-arrays_of n es (line ∷ lines) h =
    let added = entry_of (table_of line) (query_of line) in
    let room = length-snoc_entries es (table_of line) (query_of line) in
    rw
      (
        add_table-entry_of n es (table_of line) (query_of line) (omega (arith, h)),
        ← append_assoc es added (entries lines),
      )
      (add_lines-arrays_of n (es ++ added) lines (omega (arith, room, h)))

no_zero-step :
    (c : ℕ) (count : Option ℕ) (lines : List (List ℕ))
    → 0 < c
    → count ≡ some (length lines)
    → 0 < length lines
    → (if c == 0 then none else if c == 10 then map_option suc count else count)
      ≡ some (length (if c == 10 then [] ∷ lines else longer c lines))
no_zero-step c count [] p h q = absurd (omega (arith, q))
no_zero-step c count (line ∷ lines) p h q = rw h (ground arith)

length-longer : (c : ℕ) (lines : List (List ℕ)) → 0 < length (longer c lines)
length-longer c [] = omega arith
length-longer c (line ∷ lines) = omega arith

length-lines_of : (bytes : List ℕ) → 0 < length (lines_of bytes)
unfolding lines_of
length-lines_of [] = omega arith
length-lines_of (c ∷ cs) = elim (Bool-cases (c == 10)) [
  | inl e ↦ rw e (omega arith)
  | inr e ↦ rw e (length-longer c (lines_of cs))
]

-- The function on bytes among which no zero is.
count_lines-length :
    (bytes : List ℕ) → All (λ c. 0 < c) bytes → count_lines bytes ≡ some (length (lines_of bytes))
unfolding count_lines lines_of
count_lines-length [] h = refl
count_lines-length (c ∷ cs) h =
    no_zero-step c (count_lines cs) (lines_of cs) h.0 (count_lines-length cs h.1)
      (length-lines_of cs)

-- On bytes without a zero the function leaves arrays that hold the entries of the lines, in the
-- order of the file. There is room for them, and the cell behind the last one is NULL.
pub load_table_list_file-arrays_of :
    (bytes : List ℕ)
    → All (λ c. 0 < c) bytes
    → (load_table_list_file (some bytes)
        ≡ some (arrays_of (length (lines_of bytes) + 1) (entries (lines_of bytes))))
      × (length (entries (lines_of bytes)) < length (lines_of bytes) + 1)
unfolding load_table_list_file
load_table_list_file-arrays_of bytes h = (
  rw (count_lines-length bytes h, ◌>>=◌)
      (add_lines-arrays_of (length (lines_of bytes) + 1) [] (lines_of bytes) (omega arith)),
  omega (arith, length-entries (lines_of bytes)),
)
