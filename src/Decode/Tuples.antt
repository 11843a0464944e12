-- ===== src/Decode/Tuples.antt =====
-- `read_tuple_parts` of dbsync/pg_logicaldecode.c on the bytes that Wire describes.
use rds_dbsync.Base.{
  ℕ, false, ◌+◌, ◌≤◌, ◌<◌, ◌^◌, ◌≡◌, refl, true, none, some, List, [], ◌∷◌, ◌++◌, map, append-nil,
  append_assoc, arith, length, All, array, c_bytes, c_string-c_bytes, store-array-map,
  array-map_default, length-snoc,
}
use rds_dbsync.Pqformat.{Pqformat, msb}
use rds_dbsync.Message.{rounds_small, DecodeTupleData}
use rds_dbsync.Wire.{
  sized, concat_map, Cell, null, unchanged, value, cell_bytes, cell_isnull, cell_changed, cell_text,
  tuple_bytes, tuple_of, FitsCell, FitsRow,
}
use rds_dbsync.Decode.{read_value, read_values, read_tuple_parts, ◌>>=◌}
use rds_dbsync.Decode.Columns.{checked_store_lem, getmsgbytes-c_bytes}

abbrev with_cells : DecodeTupleData → List Cell → DecodeTupleData
with_cells tup cells = record tup {
  isnull = array true (map cell_isnull cells);
  changed = array true (map cell_changed cells);
  svalues = array none (map cell_text cells);
}

module _ (pq : Pqformat) where
  getmsgint-sized_four :
      (t rest : List ℕ)
      → length t + 1 < 2 ^ 31
      → pq.getmsgint (sized 4 t ++ rest) 4 ≡ (length t + 1, c_bytes t ++ rest)
  unfolding sized
  getmsgint-sized_four t rest h =
      rw append_assoc (pq.getmsgint-four (length t + 1) (c_bytes t ++ rest) (omega arith))

  read_value-cell_bytes :
      (tup : DecodeTupleData) (done : List Cell) (c : Cell) (rest : List ℕ)
      → FitsCell c
      → length done < 1664
      → read_value pq (length done) (with_cells tup done) (cell_bytes c ++ rest)
        ≡ some ((with_cells tup (done ++ c ∷ []), true), rest)
  unfolding read_value cell_bytes
  read_value-cell_bytes tup done null rest h b = simp (
    pq.getmsgbyte_lem b'n' rest (omega arith),
    checked_store_lem (array none (map cell_text done)) (length done) none b,
    store-array-map cell_text none done null,
    ← array-map_default cell_isnull true done null refl,
    ← array-map_default cell_changed true done null refl,
  )
  read_value-cell_bytes tup done unchanged rest h b = simp (
    pq.getmsgbyte_lem b'u' rest (omega arith),
    checked_store_lem (array none (map cell_text done)) (length done) none b,
    checked_store_lem (array true (map cell_isnull done)) (length done) true b,
    checked_store_lem (array true (map cell_changed done)) (length done) false b,
    store-array-map cell_text none done unchanged,
    store-array-map cell_isnull true done unchanged,
    store-array-map cell_changed true done unchanged,
  )
  read_value-cell_bytes tup done (value t) rest h b = simp (
    pq.getmsgbyte_lem b't' (sized 4 t ++ rest) (omega arith),
    getmsgint-sized_four t rest h.1,
    getmsgbytes-c_bytes pq t rest (length t + 1) refl,
    c_string-c_bytes t rest h.0,
    checked_store_lem (array none (map cell_text done)) (length done) (some t) b,
    checked_store_lem (array true (map cell_isnull done)) (length done) false b,
    store-array-map cell_text none done (value t),
    store-array-map cell_isnull true done (value t),
    ← array-map_default cell_changed true done (value t) refl,
  )

  read_values-cell_bytes :
      (tup : DecodeTupleData) (done todo : List Cell) (rest : List ℕ)
      → All FitsCell todo
      → length done + length todo ≤ 1664
      → read_values pq
          (length todo)
          (length done)
          (with_cells tup done)
          (concat_map cell_bytes todo ++ rest)
        ≡ some ((with_cells tup (done ++ todo), true), rest)
  unfolding read_values concat_map
  read_values-cell_bytes tup done [] rest h b = rw append-nil
  read_values-cell_bytes tup done (c ∷ todo) rest h b =
      rw
        (
          append_assoc,
          read_value-cell_bytes tup done c (concat_map cell_bytes todo ++ rest) h.0 (omega arith),
          ◌>>=◌,
        )
        (rw (length-snoc, append_assoc) at
          (read_values-cell_bytes tup (done ++ c ∷ []) todo rest h.1
            (omega (arith, length-snoc done c))))

  -- A tuple is read back cell by cell, whatever its natt and its flags were before.
  pub read_tuple_parts-tuple_bytes :
      (tup : DecodeTupleData) (cells : List Cell) (rest : List ℕ)
      → tup.svalues ≡ array none []
      → FitsRow cells
      → read_tuple_parts pq tup (tuple_bytes cells ++ rest) ≡ some ((tuple_of cells, true), rest)
  unfolding read_tuple_parts tuple_bytes
  read_tuple_parts-tuple_bytes tup cells rest e h =
      simp
        (
          append_assoc,
          pq.getmsgbyte_lem b'T' (msb 4 (length cells) ++ (concat_map cell_bytes cells ++ rest))
              (omega arith),
          pq.getmsgint-four (length cells) (concat_map cell_bytes cells ++ rest) (omega arith),
          rounds_small (length cells) h.1,
          e,
        )
        (read_values-cell_bytes (record tup { natt = length cells }) [] cells rest h.0
          (omega arith))
