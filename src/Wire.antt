-- ===== src/Wire.antt =====
-- The format of the row messages as a description of its own: which bytes stand on the wire for
-- the columns, the key, and the rows of a change, and the message that stands for them.
use rds_dbsync.Base.{
  ℕ, ◌+◌, ◌<◌, ◌≤◌, ◌^◌, Bool, true, false, Option, none, some, List, [], ◌∷◌, ◌++◌, map, Text,
  length, All, array, c_bytes, IsCString,
}
use rds_dbsync.Pqformat.{msb}
use rds_dbsync.Message.{
  DecodeTupleData, DecodeMessage, zero_tuple, zero_message, msgkind_insert, msgkind_update,
  msgkind_delete, max_tuple_attribute_number,
}

-- What the server writes for the start and for the end of a transaction.
unfoldable pub begin_bytes : ℕ → ℕ → ℕ → List ℕ
begin_bytes lsn tm xid = b'B' ∷ (msb 4 0 ++ (msb 8 lsn ++ (msb 8 tm ++ msb 4 xid)))

unfoldable pub commit_bytes : ℕ → ℕ → ℕ → ℕ → List ℕ
commit_bytes flags lsn end_lsn tm =
    b'C' ∷ (msb 4 flags ++ (msb 8 lsn ++ (msb 8 end_lsn ++ msb 8 tm)))

-- A string behind its size, which counts the terminating zero.
unfoldable pub sized : ℕ → Text → List ℕ
sized b t = msb b (length t + 1) ++ c_bytes t

unfoldable pub concat_map {ℓ} : {A : Type ℓ} → (A → List ℕ) → List A → List ℕ
concat_map f [] = []
concat_map f (x ∷ xs) = f x ++ concat_map f xs

-- A column: dropped, or its name and its type.
pub data Column : Type 0 where
  dropped : Column
  live : Text → Text → Column

unfoldable pub column_bytes : Column → List ℕ
column_bytes dropped = msb 2 0
column_bytes (live name type_name) = sized 2 name ++ sized 2 type_name

-- The names of the replica identity's columns, if there is one.
unfoldable pub key_bytes : Option (List Text) → List ℕ
key_bytes none = b'P' ∷ []
key_bytes (some names) = b'M' ∷ (msb 2 (length names) ++ concat_map (sized 2) names)

pub data Cell : Type 0 where
  null unchanged : Cell
  value : Text → Cell

unfoldable pub cell_bytes : Cell → List ℕ
cell_bytes null = b'n' ∷ []
cell_bytes unchanged = b'u' ∷ []
cell_bytes (value t) = b't' ∷ sized 4 t

unfoldable pub tuple_bytes : List Cell → List ℕ
tuple_bytes cells = b'T' ∷ (msb 4 (length cells) ++ concat_map cell_bytes cells)

pub data RowChange : Type 0 where
  insert : List Cell → RowChange
  update : Option (List Cell) → List Cell → RowChange
  delete : Option (List Cell) → RowChange

unfoldable pub change_kind : RowChange → ℕ
change_kind (insert row) = msgkind_insert
change_kind (update old row) = msgkind_update
change_kind (delete old) = msgkind_delete

unfoldable pub rows_bytes : RowChange → List ℕ
rows_bytes (insert row) = b'N' ∷ tuple_bytes row
rows_bytes (update none row) = b'N' ∷ tuple_bytes row
rows_bytes (update (some old) row) = b'K' ∷ (tuple_bytes old ++ (b'N' ∷ tuple_bytes row))
rows_bytes (delete none) = b'E' ∷ []
rows_bytes (delete (some old)) = b'K' ∷ tuple_bytes old

pub record RowMessage : Type 0 where
  pub schema : Text
  pub table : Text
  pub columns : List Column
  pub key : Option (List Text)
  pub change : RowChange

unfoldable pub columns_bytes : List Column → Option (List Text) → List ℕ
columns_bytes columns key =
    b'C' ∷ (msb 2 (length columns) ++ (concat_map column_bytes columns ++ key_bytes key))

unfoldable pub message_bytes : RowMessage → List ℕ
message_bytes m =
    change_kind m.change
    ∷ (sized 2 m.schema
        ++ (sized 2 m.table ++ (columns_bytes m.columns m.key ++ rows_bytes m.change)))

-- The message as the receiver holds it.
abbrev pub column_name : Column → Option Text
column_name dropped = none
column_name (live name type_name) = some name

abbrev pub column_type : Column → Option Text
column_type dropped = none
column_type (live name type_name) = some type_name

abbrev pub cell_isnull : Cell → Bool
cell_isnull null = true
cell_isnull unchanged = true
cell_isnull (value t) = false

abbrev pub cell_changed : Cell → Bool
cell_changed null = true
cell_changed unchanged = false
cell_changed (value t) = true

abbrev pub cell_text : Cell → Option Text
cell_text null = none
cell_text unchanged = none
cell_text (value t) = some t

abbrev pub tuple_of : List Cell → DecodeTupleData
tuple_of cells = record {
  natt = length cells;
  isnull = array true (map cell_isnull cells);
  changed = array true (map cell_changed cells);
  svalues = array none (map cell_text cells);
}

abbrev pub old_row : RowChange → Option (List Cell)
old_row (insert row) = none
old_row (update old row) = old
old_row (delete old) = old

abbrev pub new_row : RowChange → Option (List Cell)
new_row (insert row) = some row
new_row (update old row) = some row
new_row (delete old) = none

abbrev pub tuple_or_zero : Option (List Cell) → DecodeTupleData
tuple_or_zero none = zero_tuple
tuple_or_zero (some cells) = tuple_of cells

abbrev pub is_some {ℓ} : {A : Type ℓ} → Option A → Bool
is_some none = false
is_some (some a) = true

abbrev pub names_or_nil : Option (List Text) → List Text
names_or_nil none = []
names_or_nil (some names) = names

unfoldable pub message_of : RowMessage → DecodeMessage
message_of m = record zero_message {
  kind = change_kind m.change;
  relname = some m.table;
  schemaname = some m.schema;
  natt = length m.columns;
  attname = array none (map column_name m.columns);
  atttype = array none (map column_type m.columns);
  k_natt = length (names_or_nil m.key);
  k_attname = array none (map some (names_or_nil m.key));
  has_key_or_old = is_some (old_row m.change);
  newtuple = tuple_or_zero (new_row m.change);
  oldtuple = tuple_or_zero (old_row m.change);
}

-- What fits the wire: C strings whose size has room, and no more columns than an array holds.
abbrev pub FitsName : Text → Type 0
FitsName t = IsCString t × (length t + 1 < 2 ^ 16)

abbrev pub FitsColumn : Column → Type 0
FitsColumn dropped = Unit {0}
FitsColumn (live name type_name) = FitsName name × FitsName type_name

abbrev pub FitsCell : Cell → Type 0
FitsCell null = Unit {0}
FitsCell unchanged = Unit {0}
FitsCell (value t) = IsCString t × (length t + 1 < 2 ^ 31)

abbrev pub FitsRow : List Cell → Type 0
FitsRow cells = All FitsCell cells × (length cells ≤ max_tuple_attribute_number)

abbrev pub FitsOption {ℓ} : {A : Type ℓ} → (A → Type 0) → Option A → Type 0
FitsOption P none = Unit {0}
FitsOption P (some a) = P a

abbrev pub FitsKey : List Text → Type 0
FitsKey names = All FitsName names × (length names ≤ max_tuple_attribute_number)

pub record FitsMessage (m : RowMessage) : Type 0 where
  pub schema_fits : FitsName m.schema
  pub table_fits : FitsName m.table
  pub columns_fit : All FitsColumn m.columns
  pub columns_bound : length m.columns ≤ max_tuple_attribute_number
  pub key_fits : FitsOption FitsKey m.key
  pub old_fits : FitsOption FitsRow (old_row m.change)
  pub new_fits : FitsOption FitsRow (new_row m.change)
