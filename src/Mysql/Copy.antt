-- ===== src/Mysql/Copy.antt =====
-- The rows of a MySQL table as the data of a COPY command: the loop over the rows in
-- `mysql2pgsql_copy_data` (dbsync/mysql2pgsql.c).
use rds_dbsync.Base.{
  ℕ, zero, suc, ◌+◌, Bool, true, false, Option, none, some, List, [], ◌∷◌, ◌++◌, Text, codes, leb,
  ltb, length, c_string, if◌then◌else◌,
}
use rds_dbsync.Quote.{Escapes, TypeOid, quote_literal_local_withoid}

-- `MYSQL_ROW`: a cell is the bytes of the value, or NULL.
abbrev pub Row : Type 0
Row = ℕ → Option (List ℕ)

abbrev pub between : ℕ → Text
between zero = []
between (suc i) = codes "|"

abbrev pub cell_text : Escapes → TypeOid → Option (List ℕ) → Text
cell_text esc type_oid none = []
cell_text esc type_oid (some value) = quote_literal_local_withoid esc (c_string value) type_oid

-- The loop over the columns, `i` the next one.
unfoldable pub add_cells : Escapes → List TypeOid → ℕ → Row → Text → Text
add_cells esc [] i row query = query
add_cells esc (type_oid ∷ column_oids) i row query =
    add_cells esc column_oids (suc i) row (query ++ between i ++ cell_text esc type_oid (row i))

-- `query`, `row_count` and the data that `PQputCopyData` took.
pub record CopyState : Type 0 where
  pub query : Text
  pub row_count : ℕ
  pub sent : List Text

-- `goto exit` leaves the state as it is; the flag tells that `count` was set before.
pub data CopyOutcome : Type 0 where
  going : CopyState → CopyOutcome
  exited : Bool → CopyState → CopyOutcome

abbrev pub and_then : CopyOutcome → (CopyState → CopyOutcome) → CopyOutcome
and_then (going s) f = f s
and_then (exited counted s) f = exited counted s

-- What a table's COPY runs in: the reader of literals, the size of the buffer, whether
-- `PQputCopyData` takes data behind those that it took, and whether `time_to_abort` is set when
-- a row has been counted.
pub record Copying : Type 0 where
  pub esc : Escapes
  pub column_oids : List TypeOid
  pub buffer_size : ℕ
  pub puts : List Text → Text → Bool
  pub time_to_abort : ℕ → Bool

module _ (env : Copying) where
  -- `PQputCopyData` and `resetPQExpBuffer`.
  abbrev pub put_copy_data : CopyState → CopyOutcome
  put_copy_data s =
      if env.puts s.sent s.query
      then going (record { query = []; row_count = s.row_count; sent = s.sent ++ s.query ∷ [] })
      else exited false s

  abbrev pub add_row : Row → CopyState → CopyState
  add_row row s = record {
    query = add_cells env.esc env.column_oids 0 row s.query ++ codes "\n";
    row_count = s.row_count + 1;
    sent = s.sent;
  }

  abbrev pub flush_full : CopyState → CopyOutcome
  flush_full s = if leb env.buffer_size (length s.query) then put_copy_data s else going s

  abbrev pub check_abort : CopyState → CopyOutcome
  check_abort s = if env.time_to_abort s.row_count then exited true s else going s

  -- One turn of the loop over the rows.
  unfoldable pub copy_row : Row → CopyState → CopyOutcome
  copy_row row s = and_then (flush_full (add_row row s)) check_abort

  unfoldable pub copy_rows : List Row → CopyState → CopyOutcome
  copy_rows [] s = going s
  copy_rows (row ∷ rows) s = and_then (copy_row row s) (copy_rows rows)

  -- The data that are left when the rows end.
  abbrev pub flush_rest : CopyState → CopyOutcome
  flush_rest s = if ltb 0 (length s.query) then put_copy_data s else going s

  unfoldable pub copy_table_rows : List Row → CopyOutcome
  copy_table_rows rows =
      and_then (copy_rows rows (record { query = []; row_count = 0; sent = [] })) flush_rest
