-- ===== src/Mysql/Sync/Queue.antt =====
-- From the table list to the tasks of the threads.
use rds_dbsync.Base.{
  ℕ, suc, ◌+◌, ◌-◌, ◌<◌, ◌≡◌, refl, ap, ◌∙◌, Option, none, some, List, [], ◌∷◌, map, Text, length,
  array, ◌>>=◌, true, arith, IsCString,
}
use rds_dbsync.TableList.{lines_of, load_table_list_file}
use rds_dbsync.TableList.Bounds.{
  Entry, entries, arrays_of, table_cell, query_cell, load_table_list_file-arrays_of,
}
use rds_dbsync.Mysql.Table.{Task}
use rds_dbsync.Mysql.Sync.{tasks_of_arrays, task_at, start_sync, start_queue}

abbrev pub task_of : Option Text → Entry → Task
task_of schema e = task_at schema e.0 e.1

-- The cells of an array from an index on are those of the list, and NULL behind it.
abbrev Holds : (ℕ → Option Text) → ℕ → List (Option Text) → Type 0
Holds f i cells = (j : ℕ) → f (i + j) ≡ array none cells j

Holds-tail :
    (f : ℕ → Option Text) (i : ℕ) (c : Option Text) (cells : List (Option Text))
    → Holds f i (c ∷ cells)
    → Holds f (suc i) cells
Holds-tail f i c cells h j = ap f (omega arith) ∙ h (suc j)

Holds-head :
    (f : ℕ → Option Text) (i : ℕ) (cells : List (Option Text))
    → Holds f i cells
    → f i ≡ array none cells 0
Holds-head f i cells h = ap f (omega arith) ∙ h 0

read_cells :
    (schema : Option Text) (tabnames queries : ℕ → Option Text) (es : List Entry) (spare i : ℕ)
    → Holds tabnames i (map table_cell es)
    → Holds queries i (map query_cell es)
    → tasks_of_arrays (length es + suc spare) tabnames queries schema i
      ≡ some (map (task_of schema) es)
unfolding tasks_of_arrays
read_cells schema tabnames queries [] spare i t q =
    let cells : 0 + suc spare ≡ suc spare = omega arith in
    rw (cells, Holds-head tabnames i [] t) refl
read_cells schema tabnames queries (e ∷ es) spare i t q =
    let cells : suc (length es) + suc spare ≡ suc (length es + suc spare) = omega arith in
    rw
      (
        cells,
        Holds-head tabnames i (map table_cell (e ∷ es)) t,
        Holds-head queries i (map query_cell (e ∷ es)) q,
        read_cells schema tabnames queries es spare (suc i)
            (Holds-tail tabnames i (table_cell e) (map table_cell es) t)
            (Holds-tail queries i (query_cell e) (map query_cell es) q),
      )
      refl

spare_cells : (n m : ℕ) → n < m → m ≡ n + suc (m - n - 1)
spare_cells n m h = omega (arith, h)

read_arrays :
    (schema : Option Text) (es : List Entry) (cells : ℕ)
    → length es < cells
    → tasks_of_arrays cells
        (arrays_of cells es).table_array
        (arrays_of cells es).query_array
        schema
        0
      ≡ some (map (task_of schema) es)
unfolding tasks_of_arrays
read_arrays schema es cells h =
    let a = arrays_of cells es in
    ap (λ n. tasks_of_arrays n a.table_array a.query_array schema 0)
      (spare_cells (length es) cells h)
    ∙ read_cells schema a.table_array a.query_array es (cells - length es - 1) 0
        (λ j. ap a.table_array (omega arith)) (λ j. ap a.query_array (omega arith))

-- From a table list without a zero byte, with both connections, the threads are started on a queue
-- that has a task for each line with a name, in the file's order, with the line's query, and that
-- counts them; the loops over the arrays end inside them.
pub start_sync-load_table_list_file :
    (bytes : List ℕ) (schema : Option Text) (shown : Option (List Text))
    → IsCString bytes
    → (load_table_list_file (some bytes) >>= λ a.
        start_sync
          (record { source_connects = true; target_connects = true; shown_tables = shown })
          (some (record { cells = a.capacity; tabnames = a.table_array; queries = a.query_array }))
          schema)
      ≡ some (start_queue (map (task_of schema) (entries (lines_of bytes))))
unfolding start_sync
start_sync-load_table_list_file bytes schema shown h =
    let (loaded, room) = load_table_list_file-arrays_of bytes h in
    rw
      (
        loaded,
        ◌>>=◌,
        read_arrays schema (entries (lines_of bytes)) (length (lines_of bytes) + 1) room,
      )
      refl
