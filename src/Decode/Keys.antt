-- ===== src/Decode/Keys.antt =====
-- The routines of dbsync/pg_logicaldecode.c on the bytes that Wire describes: the names of the
-- key, and the whole column section.
use rds_dbsync.Base.{
  ℕ, ◌+◌, ◌≤◌, ◌≡◌, refl, true, Option, none, some, List, [], ◌∷◌, ◌++◌, map, append-nil,
  append_assoc, arith, Text, length, All, array, c_string-c_bytes, store-array-map, length-snoc,
}
use rds_dbsync.Pqformat.{Pqformat, msb}
use rds_dbsync.Message.{DecodeMessage}
use rds_dbsync.Wire.{
  sized, concat_map, Column, column_bytes, key_bytes, FitsName, FitsColumn, FitsKey, FitsOption,
}
use rds_dbsync.Decode.{read_key_names, read_keys, read_key_section, process_read_colunm_info, ◌>>=◌}
use rds_dbsync.Decode.Columns.{
  checked_store_lem, getmsgint-sized, getmsgbytes-c_bytes, with_columns, read_columns-column_bytes,
}

abbrev pub with_keys : DecodeMessage → List Text → DecodeMessage
with_keys msg names = record msg { k_attname = array none (map some names) }

-- What the key section leaves in the message.
abbrev pub with_key : DecodeMessage → Option (List Text) → DecodeMessage
with_key msg none = msg
with_key msg (some names) = with_keys (record msg { k_natt = length names }) names

module _ (pq : Pqformat) where
  read_key_names-bytes :
      (msg : DecodeMessage) (done todo : List Text) (rest : List ℕ)
      → All FitsName todo
      → length done + length todo ≤ 1664
      → read_key_names pq
          (length todo)
          (length done)
          (with_keys msg done)
          (concat_map (sized 2) todo ++ rest)
        ≡ some (with_keys msg (done ++ todo), rest)
  unfolding read_key_names concat_map
  read_key_names-bytes msg done [] rest h b = rw append-nil
  read_key_names-bytes msg done (t ∷ todo) rest h b =
      let after : List ℕ = concat_map (sized 2) todo ++ rest in
      simp
        (
          append_assoc,
          getmsgint-sized pq t after h.0,
          getmsgbytes-c_bytes pq t after (length t + 1) refl,
          c_string-c_bytes t after h.0.0,
          checked_store_lem (array none (map some done)) (length done) (some t) (omega arith),
          store-array-map some none done t,
        )
        (rw (length-snoc, append_assoc) at
          (read_key_names-bytes msg (done ++ t ∷ []) todo rest h.1
            (omega (arith, length-snoc done t))))

  read_keys-bytes :
      (msg : DecodeMessage) (names : List Text) (rest : List ℕ)
      → FitsKey names
      → read_keys pq
          (with_keys msg [])
          (msb 2 (length names) ++ (concat_map (sized 2) names ++ rest))
        ≡ some ((with_key msg (some names), true), rest)
  unfolding read_keys
  read_keys-bytes msg names rest h =
      simp (pq.getmsgint-two (length names) (concat_map (sized 2) names ++ rest) (omega arith)) (
        rw (
          read_key_names-bytes (record msg { k_natt = length names }) [] names rest h.0
              (omega arith),
          ◌>>=◌,
        ))

  -- The section's end: a `P`, or an `M` with the key's names.
  pub read_key_section-bytes :
      (msg : DecodeMessage) (key : Option (List Text)) (rest : List ℕ)
      → FitsOption FitsKey key
      → read_key_section pq (with_keys msg []) (key_bytes key ++ rest)
        ≡ some ((with_key (with_keys msg []) key, true), rest)
  unfolding read_key_section key_bytes
  read_key_section-bytes msg none rest h = rw (pq.getmsgbyte_lem b'P' rest (omega arith))
  read_key_section-bytes msg (some names) rest h =
      rw
        (
          append_assoc,
          pq.getmsgbyte_lem b'M' (msb 2 (length names) ++ (concat_map (sized 2) names ++ rest))
              (omega arith),
        )
        (read_keys-bytes msg names rest h)

  pub read_colunm_info-bytes :
      (msg : DecodeMessage) (columns : List Column) (key : Option (List Text)) (rest : List ℕ)
      → All FitsColumn columns
      → length columns ≤ 1664
      → FitsOption FitsKey key
      → process_read_colunm_info pq
          (with_keys (with_columns msg []) [])
          (msb 2 (length columns) ++ (concat_map column_bytes columns ++ (key_bytes key ++ rest)))
        ≡ some (
          (
            with_key
                (with_keys (with_columns (record msg { natt = length columns }) columns) [])
                key,
            true,
          ),
          rest,
        )
  unfolding process_read_colunm_info
  read_colunm_info-bytes msg columns key rest h b k =
      simp
        (pq.getmsgint-two (length columns)
          (concat_map column_bytes columns ++ (key_bytes key ++ rest)) (omega arith))
        (rw
          (
            read_columns-column_bytes pq (with_keys (record msg { natt = length columns }) []) []
                columns (key_bytes key ++ rest) h (omega arith),
            ◌>>=◌,
          )
          (read_key_section-bytes (with_columns (record msg { natt = length columns }) columns) key
            rest k))
