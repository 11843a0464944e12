-- ===== src/Decode/Heads.antt =====
-- The parts that the row handlers of dbsync/pg_logicaldecode.c share, on the bytes of whole row
-- messages: the names of the table, the columns and the key, and a row.
use rds_dbsync.Base.{
  ℕ, ◌+◌, ◌<◌, ◌≡◌, refl, true, Option, none, some, List, [], ◌∷◌, ◌++◌, map, append_assoc, arith,
  Text, length, array, c_string-c_bytes,
}
use rds_dbsync.Pqformat.{Pqformat, msb}
use rds_dbsync.Message.{DecodeMessage, zero_message, zero_tuple}
use rds_dbsync.Wire.{
  sized, concat_map, column_bytes, key_bytes, Cell, RowMessage, columns_bytes, FitsName,
  FitsMessage, FitsRow, tuple_bytes, tuple_of, names_or_nil, column_name, column_type,
}
use rds_dbsync.Decode.{read_rel, read_column_section, read_newtuple, read_oldtuple, ◌>>=◌}
use rds_dbsync.Decode.Columns.{getmsgint-sized, getmsgbytes-c_bytes, with_columns}
use rds_dbsync.Decode.Keys.{with_keys, with_key, read_colunm_info-bytes}
use rds_dbsync.Decode.Tuples.{read_tuple_parts-tuple_bytes}

-- The message once the table is read, and once its columns and its key are read too.
abbrev pub named : ℕ → RowMessage → DecodeMessage
named kind m = record zero_message {
  kind = kind;
  relname = some m.table;
  schemaname = some m.schema;
}

abbrev pub described : ℕ → RowMessage → DecodeMessage
described kind m = record (named kind m) {
  natt = length m.columns;
  attname = array none (map column_name m.columns);
  atttype = array none (map column_type m.columns);
  k_natt = length (names_or_nil m.key);
  k_attname = array none (map some (names_or_nil m.key));
}

-- The column section without its first byte, and what stands behind it.
abbrev pub info : RowMessage → List ℕ → List ℕ
info m rest =
    msb 2 (length m.columns) ++ (concat_map column_bytes m.columns ++ (key_bytes m.key ++ rest))

-- What the three row handlers read before the rows.
abbrev pub head_bytes : RowMessage → List ℕ → List ℕ
head_bytes m rest = sized 2 m.schema ++ (sized 2 m.table ++ (columns_bytes m.columns m.key ++ rest))

module _ (pq : Pqformat) where
  read_rel-bytes :
      (msg : DecodeMessage) (schema table rest : List ℕ)
      → FitsName schema
      → FitsName table
      → read_rel pq msg (sized 2 schema ++ (sized 2 table ++ rest))
        ≡ some (record msg { relname = some table; schemaname = some schema }, rest)
  unfolding read_rel
  read_rel-bytes msg schema table rest h k =
      let after : List ℕ = sized 2 table ++ rest in
      simp (
        getmsgint-sized pq schema after h,
        getmsgbytes-c_bytes pq schema after (length schema + 1) refl,
        c_string-c_bytes schema after h.0,
        getmsgint-sized pq table rest k,
        getmsgbytes-c_bytes pq table rest (length table + 1) refl,
        c_string-c_bytes table rest k.0,
      )

  with_key-zero :
      (msg : DecodeMessage) (key : Option (List Text))
      → with_key (with_keys (record msg { k_natt = 0 }) []) key ≡ record msg {
        k_natt = length (names_or_nil key);
        k_attname = array none (map some (names_or_nil key));
      }
  with_key-zero msg none = refl
  with_key-zero msg (some names) = refl

  pub getmsgbyte-columns_bytes :
      (m : RowMessage) (rest : List ℕ)
      → pq.getmsgbyte (columns_bytes m.columns m.key ++ rest) ≡ (some b'C', info m rest)
  unfolding columns_bytes
  getmsgbyte-columns_bytes m rest =
      simp append_assoc (pq.getmsgbyte_lem b'C' (info m rest) (omega arith))

  pub read_column_section-info :
      (m : RowMessage) (kind a : ℕ) (rest : List ℕ)
      → FitsMessage m
      → a < 256
      → read_column_section pq b'C' (named kind m) (info m (a ∷ rest))
        ≡ some ((described kind m, a), rest)
  unfolding read_column_section
  read_column_section-info m kind a rest h c =
      rw
        (
          read_colunm_info-bytes pq (named kind m) m.columns m.key (a ∷ rest) h.columns_fit
              h.columns_bound h.key_fits,
          ◌>>=◌,
        )
        (rw (
          pq.getmsgbyte_lem a rest c,
          with_key-zero (with_columns (record (named kind m) { natt = length m.columns }) m.columns)
              m.key,
        ))

  pub read_rel-head :
      (m : RowMessage) (kind : ℕ) (rest : List ℕ)
      → FitsMessage m
      → read_rel pq (record zero_message { kind = kind }) (head_bytes m rest)
        ≡ some (named kind m, columns_bytes m.columns m.key ++ rest)
  read_rel-head m kind rest h =
      read_rel-bytes (record zero_message { kind = kind }) m.schema m.table
        (columns_bytes m.columns m.key ++ rest) h.schema_fits h.table_fits

  pub read_newtuple-bytes :
      (msg : DecodeMessage) (row : List Cell) (rest : List ℕ)
      → msg.newtuple ≡ zero_tuple
      → FitsRow row
      → read_newtuple pq msg (tuple_bytes row ++ rest)
        ≡ some ((record msg { newtuple = tuple_of row }, true), rest)
  read_newtuple-bytes msg row rest e h =
      rw (read_tuple_parts-tuple_bytes pq msg.newtuple row rest (rw e) h, ◌>>=◌)

  pub read_oldtuple-bytes :
      (msg : DecodeMessage) (row : List Cell) (rest : List ℕ)
      → msg.oldtuple ≡ zero_tuple
      → FitsRow row
      → read_oldtuple pq msg (tuple_bytes row ++ rest)
        ≡ some ((record msg { oldtuple = tuple_of row }, true), rest)
  read_oldtuple-bytes msg row rest e h =
      rw (read_tuple_parts-tuple_bytes pq msg.oldtuple row rest (rw e) h, ◌>>=◌)
