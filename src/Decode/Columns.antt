-- ===== src/Decode/Columns.antt =====
-- The routines of dbsync/pg_logicaldecode.c on the bytes that Wire describes: the columns.
use rds_dbsync.Base.{
  ℕ, suc, ◌+◌, ◌<◌, ◌≤◌, ◌≡◌, refl, none, some, List, [], ◌∷◌, ◌++◌, map, append_assoc, arith,
  length, array, store, c_bytes, c_string-c_bytes, length-c_bytes, lt→ltb, add_one-==-zero, fun_ext,
  length-snoc, append-nil, ◌∙◌, All, store-array-map, array-map_default,
}
use rds_dbsync.Pqformat.{Pqformat, Reader}
use rds_dbsync.Message.{DecodeMessage}
use rds_dbsync.Wire.{
  sized, concat_map, Column, dropped, live, column_bytes, column_name, column_type, FitsName,
  FitsColumn,
}
use rds_dbsync.Decode.{pure, ◌>>=◌, checked_store, read_column, read_columns}

pub checked_store_lem {ℓ} :
    {A : Type ℓ} (f : ℕ → A) (i : ℕ) (v : A) → i < 1664 → checked_store f i v ≡ pure (store f i v)
unfolding checked_store
checked_store_lem f i v h = fun_ext (λ s. rw (lt→ltb i 1664 h))

-- One step of a `do` block whose action is known to succeed.
pub bind_some {ℓ κ} :
    {A : Type ℓ} {B : Type κ} (m : Reader A) (f : A → Reader B) {a : A} {s s' : List ℕ}
    → m s ≡ some (a, s')
    → (m >>= f) s ≡ f a s'
bind_some m f {s = s} h = rw (h, ◌>>=◌)

module _ (pq : Pqformat) where
  pub getmsgint-sized :
      (t rest : List ℕ)
      → FitsName t
      → pq.getmsgint (sized 2 t ++ rest) 2 ≡ (length t + 1, c_bytes t ++ rest)
  unfolding sized
  getmsgint-sized t rest h =
      rw append_assoc (pq.getmsgint-two (length t + 1) (c_bytes t ++ rest) h.1)

  pub getmsgbytes-c_bytes :
      (t rest : List ℕ) (n : ℕ)
      → length t + 1 ≡ n
      → pq.getmsgbytes (c_bytes t ++ rest) n ≡ (some (c_bytes t ++ rest), rest)
  getmsgbytes-c_bytes t rest n h =
      pq.getmsgbytes_lem (c_bytes t) rest n (omega (arith, length-c_bytes t))

  pub read_column_live :
      (name type_name rest : List ℕ) (i : ℕ) (msg : DecodeMessage)
      → FitsName name
      → FitsName type_name
      → i < 1664
      → read_column pq i msg (column_bytes (live name type_name) ++ rest)
        ≡ some (
          record msg {
            attname = store msg.attname i (some name);
            atttype = store msg.atttype i (some type_name);
          },
          rest,
        )
  unfolding read_column column_bytes
  read_column_live name type_name rest i msg h k b = simp (
    append_assoc,
    getmsgint-sized name (sized 2 type_name ++ rest) h,
    add_one-==-zero,
    getmsgbytes-c_bytes name (sized 2 type_name ++ rest) (length name + 1) refl,
    c_string-c_bytes name (sized 2 type_name ++ rest) h.0,
    checked_store_lem msg.attname i (some name) b,
    checked_store_lem msg.atttype i (some type_name) b,
    getmsgint-sized type_name rest k,
    getmsgbytes-c_bytes type_name rest (length type_name + 1) refl,
    c_string-c_bytes type_name rest k.0,
  )

abbrev pub with_columns : DecodeMessage → List Column → DecodeMessage
with_columns msg cs = record msg {
  attname = array none (map column_name cs);
  atttype = array none (map column_type cs);
}

module _ (pq : Pqformat) where
  read_column_step :
      (msg : DecodeMessage) (done : List Column) (c : Column) (rest : List ℕ)
      → FitsColumn c
      → length done < 1664
      → read_column pq (length done) (with_columns msg done) (column_bytes c ++ rest)
        ≡ some (with_columns msg (done ++ c ∷ []), rest)
  read_column_step msg done dropped rest h b =
      unfold read_column column_bytes in
      simp (
        pq.getmsgint-two 0 rest (omega arith),
        ← array-map_default column_name none done dropped refl,
        ← array-map_default column_type none done dropped refl,
      )
  read_column_step msg done (live name type_name) rest h b =
      read_column_live pq name type_name rest (length done) (with_columns msg done) h.0 h.1 b
      ∙ simp (
        store-array-map column_name none done (live name type_name),
        store-array-map column_type none done (live name type_name),
      )

  pub read_columns-column_bytes :
      (msg : DecodeMessage) (done todo : List Column) (rest : List ℕ)
      → All FitsColumn todo
      → length done + length todo ≤ 1664
      → read_columns pq
          (length todo)
          (length done)
          (with_columns msg done)
          (concat_map column_bytes todo ++ rest)
        ≡ some (with_columns msg (done ++ todo), rest)
  unfolding read_columns concat_map
  read_columns-column_bytes msg done [] rest h b = rw append-nil
  read_columns-column_bytes msg done (c ∷ todo) rest h b = rw append_assoc (
      bind_some (read_column pq (length done) (with_columns msg done))
        (read_columns pq (length todo) (suc (length done)))
        (read_column_step msg done c (concat_map column_bytes todo ++ rest) h.0 (omega arith))
      ∙ (rw (length-snoc, append_assoc) at
          (read_columns-column_bytes msg (done ++ c ∷ []) todo rest h.1
            (omega (arith, length-snoc done c)))))
