-- ===== src/Plugin/Format.antt =====
-- What the plugin's writers put on the wire is the format that Wire describes.
use rds_dbsync.Base.{
  ℕ, suc, ◌≡◌, ◌∙◌, true, ◌&&◌, ◌||◌, Option, none, some, List, [], ◌∷◌, ◌++◌, map, append-nil,
  append_assoc, arith, Text, length, if◌then◌else◌, ◌>>=◌, map_option, Option-cases, inl, inr,
  bind_ext, map_option_bind, bind_map_option, map_map_option,
}
use rds_dbsync.Pqformat.{Pqformat}
use rds_dbsync.Wire.{
  sized, concat_map, Column, dropped, live, column_bytes, Cell, null, unchanged, value, cell_bytes,
  tuple_bytes,
}
use rds_dbsync.Wire.{begin_bytes, commit_bytes}
use rds_dbsync.Plugin.{
  Attribute, Relation, Server, OutputData, is_system, send_string, write_value, write_values,
  write_tuple, write_column, write_columns, write_key_names, Txn, pg_decode_begin_txn,
  pg_decode_commit_txn,
}

module _ {Datum Tuple : Type 0} (srv : Server Datum Tuple) where
  unfoldable pub column_of : Attribute → Column
  column_of att =
      if att.attisdropped || is_system att.attnum
      then dropped
      else live (srv.quote_identifier att.attname) (srv.format_type_be att.atttypid)

  -- The cell that stands for a value; `none` if its type is unknown.
  unfoldable pub cell_of : Attribute → Option Datum → Option Cell
  cell_of att none = some null
  cell_of att (some datum) =
      if att.attisdropped
      then some null
      else if att.is_varlena && srv.is_external_ondisk datum
      then some unchanged
      else map_option (λ out. value (srv.output_function_call out datum))
          (srv.type_output att.atttypid)

  unfoldable pub cells_of : ℕ → List Attribute → Tuple → Option (List Cell)
  cells_of i [] tuple = some []
  cells_of i (att ∷ atts) tuple = do
    c ← cell_of att (srv.deform tuple i)
    map_option (◌∷◌ c) (cells_of (suc i) atts tuple)

module _ (pq : Pqformat) where
  pub send_string_lem :
      (b : ℕ) (t : Text) (out : List ℕ) → send_string pq b t out ≡ out ++ sized b t
  unfolding send_string sized
  send_string_lem b t out = simp (pq.append_binary_lem, pq.sendint_lem, append_assoc)

  pub write_key_names_lem :
      (names : List Text) (out : List ℕ)
      → write_key_names pq names out ≡ out ++ concat_map (sized 2) names
  unfolding write_key_names concat_map
  write_key_names_lem [] out = rw append-nil
  write_key_names_lem (name ∷ names) out =
      write_key_names_lem names (send_string pq 2 name out)
      ∙ rw (send_string_lem 2 name out, append_assoc)

  module _ {Datum Tuple : Type 0} (srv : Server Datum Tuple) where
    write_value_lem :
        (att : Attribute) (d : Option Datum) (out : List ℕ)
        → write_value pq srv att d out ≡ map_option (λ c. out ++ cell_bytes c) (cell_of srv att d)
    unfolding write_value cell_of cell_bytes
    write_value_lem att none out = simp pq.sendbyte_lem
    write_value_lem att (some datum) out =
        simp (pq.sendbyte_lem, send_string_lem, append_assoc) (ground arith)

    write_values_lem :
        (i : ℕ) (atts : List Attribute) (tuple : Tuple) (out : List ℕ)
        → write_values pq srv i atts tuple out
          ≡ map_option (λ cs. out ++ concat_map cell_bytes cs) (cells_of srv i atts tuple)
    unfolding write_values cells_of concat_map
    write_values_lem i [] tuple out = rw append-nil
    write_values_lem i (att ∷ atts) tuple out =
        let cell : Option Cell = cell_of srv att (srv.deform tuple i) in
        let rest : Option (List Cell) = cells_of srv (suc i) atts tuple in
        rw
          (
            write_value_lem att (srv.deform tuple i) out,
            bind_map_option cell (λ c. out ++ cell_bytes c)
                (write_values pq srv (suc i) atts tuple),
            map_option_bind cell (λ c. map_option (◌∷◌ c) rest)
                (λ cs. out ++ concat_map cell_bytes cs),
          )
          (bind_ext cell _ _ λ c.
            write_values_lem (suc i) atts tuple (out ++ cell_bytes c)
            ∙ (rw (map_map_option rest (◌∷◌ c) (λ cs. out ++ concat_map cell_bytes cs))
                (simp append_assoc)))

    length-cells_of :
        (i : ℕ) (atts : List Attribute) (tuple : Tuple) (cs : List Cell)
        → cells_of srv i atts tuple ≡ some cs
        → length cs ≡ length atts
    unfolding cells_of
    length-cells_of i [] tuple cs h = ground arith
    length-cells_of i (att ∷ atts) tuple cs h =
        elim (Option-cases (cell_of srv att (srv.deform tuple i))) [
          | inl e ↦ cc (rw (e, ◌>>=◌) at h)
          | inr (c, e) ↦ elim (Option-cases (cells_of srv (suc i) atts tuple)) [
            | inl r ↦ cc (rw (r, map_option) at (rw (e, ◌>>=◌) at h))
            | inr (rest, r) ↦ ground (
              arith,
              length-cells_of (suc i) atts tuple rest r,
              (rw (r, map_option) at (rw (e, ◌>>=◌) at h)),
            )
          ]
        ]

    pub write_tuple_lem :
        (rel : Relation) (tuple : Tuple) (out : List ℕ)
        → write_tuple pq srv rel tuple out
          ≡ map_option (λ cs. out ++ tuple_bytes cs) (cells_of srv 0 rel.attrs tuple)
    unfolding write_tuple tuple_bytes
    write_tuple_lem rel tuple out =
        simp (write_values_lem, pq.sendbyte_lem, pq.sendint_lem)
          (elim (Option-cases (cells_of srv 0 rel.attrs tuple)) [
            | inl e ↦ rw e
            | inr (cs, e) ↦ rw e (rw (length-cells_of 0 rel.attrs tuple cs e) (simp append_assoc))
          ])

    write_column_lem :
        (opts : OutputData) (att : Attribute) (out : List ℕ)
        → opts.output_type_as_name ≡ true
        → write_column pq srv opts att out ≡ out ++ column_bytes (column_of srv att)
    unfolding write_column column_of column_bytes
    write_column_lem opts att out h =
        simp (pq.sendint_lem, send_string_lem, append_assoc, h) (ground arith)

    pub write_columns_lem :
        (opts : OutputData) (atts : List Attribute) (out : List ℕ)
        → opts.output_type_as_name ≡ true
        → write_columns pq srv opts atts out
          ≡ out ++ concat_map column_bytes (map (column_of srv) atts)
    unfolding write_columns concat_map
    write_columns_lem opts [] out h = rw append-nil
    write_columns_lem opts (att ∷ atts) out h =
        write_columns_lem opts atts (write_column pq srv opts att out) h
        ∙ rw (write_column_lem opts att out h, append_assoc)

module _ (pq : Pqformat) where
  pub pg_decode_begin_txn-begin_bytes :
      (txn : Txn) (out : List ℕ)
      → pg_decode_begin_txn pq txn out ≡ out ++ begin_bytes txn.final_lsn txn.commit_time txn.xid
  unfolding pg_decode_begin_txn begin_bytes
  pg_decode_begin_txn-begin_bytes txn out =
      simp (pq.sendbyte_lem, pq.sendint_lem, pq.sendint64_lem, append_assoc)

  pub pg_decode_commit_txn-commit_bytes :
      (txn : Txn) (commit_lsn : ℕ) (out : List ℕ)
      → pg_decode_commit_txn pq txn commit_lsn out
        ≡ out ++ commit_bytes 0 commit_lsn txn.end_lsn txn.commit_time
  unfolding pg_decode_commit_txn commit_bytes
  pg_decode_commit_txn-commit_bytes txn commit_lsn out =
      simp (pq.sendbyte_lem, pq.sendint_lem, pq.sendint64_lem, append_assoc)
