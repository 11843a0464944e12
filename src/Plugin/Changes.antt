-- ===== src/Plugin/Changes.antt =====
-- The bytes that `pg_decode_change` of ali_decoding/ali_decoding.c writes.
use rds_dbsync.Base.{
  ℕ, ◌<◌, ◌≡◌, refl, ap, ◌∙◌, Bool, true, false, Option, none, some, List, [], ◌∷◌, ◌++◌, map,
  append_assoc, arith, Text, ◌>>=◌, map_option, Option-cases, inl, inr, map_option_ext,
  map_map_option, length-map,
}
use native.Mathlib.Nat.{mod-eq_of_lt}
use rds_dbsync.Pqformat.{Pqformat}
use rds_dbsync.Wire.{
  sized, Column, key_bytes, Cell, tuple_bytes, RowChange, columns_bytes, rows_bytes, change_kind,
  message_bytes,
}
use rds_dbsync.Plugin.{
  AttrNumber, Relation, Server, OutputData, Change, insert, update, delete, other, write_tuple,
  key_names, write_keys, write_colum_info, write_rel, write_old, pg_decode_change,
}
use rds_dbsync.Plugin.Format.{
  column_of, send_string_lem, write_tuple_lem, write_columns_lem, write_key_names_lem,
}
use rds_dbsync.Plugin.Described.{
  IsStreaming, has_key, IsRowChange, key_of, row, change_of, describe,
}

abbrev AllSome {ℓ} : {A : Type ℓ} → (A → Type 0) → Option A → Type 0
AllSome P none = Unit {0}
AllSome P (some a) = P a

AllSome-map_option {ℓ κ} :
    {A : Type ℓ} {B : Type κ} (P : B → Type 0) (g : A → B) (o : Option A)
    → ((a : A) → P (g a))
    → AllSome P (map_option g o)
AllSome-map_option P g none h = tt
AllSome-map_option P g (some a) h = h a

module _ {Datum Tuple : Type 0} (srv : Server Datum Tuple) (pq : Pqformat) (rel : Relation)
    (opts : OutputData) (on : IsStreaming opts) where
  write_keys_lem :
      (keys : Option (List AttrNumber)) (out : List ℕ)
      → write_keys pq srv rel keys out
        ≡ map_option (λ key. out ++ key_bytes key) (key_of srv rel true keys)
  unfolding write_keys key_of key_bytes
  write_keys_lem none out = simp pq.sendbyte_lem
  write_keys_lem (some keys) out =
      rw (map_map_option (key_names srv rel keys) some (λ key. out ++ key_bytes key))
        (elim (Option-cases (key_names srv rel keys)) [
          | inl e ↦ rw e
          | inr (names, e) ↦
              rw e (simp (pq.sendbyte_lem, pq.sendint_lem, write_key_names_lem, append_assoc))
        ])

  abbrev columns : List Column
  columns = map (column_of srv) rel.attrs

  write_colum_info_lem :
      (keyed : Bool) (out : List ℕ)
      → write_colum_info pq srv rel opts keyed out
        ≡ map_option
            (λ key. out ++ columns_bytes columns key)
            (key_of srv rel keyed rel.replident_keys)
  unfolding write_colum_info columns_bytes key_of key_bytes
  write_colum_info_lem false out = simp (
    write_columns_lem pq srv opts rel.attrs _ on.type_as_name,
    pq.sendbyte_lem,
    pq.sendint_lem,
    append_assoc,
    length-map,
  )
  write_colum_info_lem true out = simp (
    on.key_info,
    write_columns_lem pq srv opts rel.attrs _ on.type_as_name,
    write_keys_lem,
    pq.sendbyte_lem,
    pq.sendint_lem,
    append_assoc,
    length-map,
  )

  abbrev head_bytes : Text → Option (List Text) → List ℕ
  head_bytes schema key = sized 2 schema ++ (sized 2 rel.relname ++ columns_bytes columns key)

  abbrev keys : Bool → Option (Option (List Text))
  keys keyed = key_of srv rel keyed rel.replident_keys

  write_rel_lem :
      (keyed : Bool) (out : List ℕ)
      → write_rel pq srv rel opts keyed out ≡ (
          srv.get_namespace_name rel.relnamespace >>= λ schema.
          map_option (λ key. out ++ head_bytes schema key) (keys keyed))
  unfolding write_rel
  write_rel_lem keyed out =
      simp (on.column_info, write_colum_info_lem, send_string_lem, append_assoc)

  -- A continuation after `write_rel`, and the rows that it writes.
  after_rel :
      (keyed : Bool) (out : List ℕ) (f : List ℕ → Option (List ℕ)) (c : Option RowChange)
      → ((front : List ℕ) → f front ≡ map_option (λ r. front ++ rows_bytes r) c)
      → (write_rel pq srv rel opts keyed out >>= f) ≡ (
          srv.get_namespace_name rel.relnamespace >>= λ schema.
          keys keyed >>= λ key. map_option (λ r. out ++ (head_bytes schema key ++ rows_bytes r)) c)
  after_rel keyed out f c h =
      rw (write_rel_lem keyed out) (elim (Option-cases (srv.get_namespace_name rel.relnamespace)) [
        | inl e ↦ rw e
        | inr (schema, e) ↦ rw e (elim (Option-cases (keys keyed)) [
          | inl k ↦ rw k
          | inr (key, k) ↦ rw k (h (out ++ head_bytes schema key) ∙ simp append_assoc)
        ])
      ])

  -- The rows behind the head, and the kind in front of it, make the described message.
  to_message :
      (kind : ℕ) (change : Change Tuple) (out : List ℕ)
      → AllSome (λ r. change_kind r ≡ kind) (change_of srv rel change)
      → (srv.get_namespace_name rel.relnamespace >>= λ schema. keys (has_key change) >>= λ key.
          map_option
            (λ r. (out ++ kind ∷ []) ++ (head_bytes schema key ++ rows_bytes r))
            (change_of srv rel change))
        ≡ map_option (λ m. out ++ message_bytes m) (describe srv rel change)
  unfolding describe message_bytes
  to_message kind change out h = elim (Option-cases (srv.get_namespace_name rel.relnamespace)) [
    | inl e ↦ rw e
    | inr (schema, e) ↦ rw e (elim (Option-cases (keys (has_key change))) [
      | inl k ↦ rw k
      | inr (key, k) ↦ rw k (elim (Option-cases (change_of srv rel change)) [
        | inl c ↦ rw c
        | inr (r, c) ↦ rw c (let q : change_kind r ≡ kind = (rw c at h) in rw q (simp append_assoc))
      ])
    ])
  ]

  kind_byte : (out : List ℕ) (b : ℕ) → b < 256 → pq.sendbyte out b ≡ out ++ b ∷ []
  kind_byte out b h = rw (pq.sendbyte_lem, mod-eq_of_lt h)

  rows_lem :
      (tuple : Tuple) (g : List Cell → RowChange) (out : List ℕ)
      → ((cs : List Cell) → rows_bytes (g cs) ≡ b'N' ∷ tuple_bytes cs)
      → write_tuple pq srv rel tuple (pq.sendbyte out b'N')
        ≡ map_option (λ r. out ++ rows_bytes r) (map_option g (row srv rel tuple))
  rows_lem tuple g out h =
      simp (write_tuple_lem, pq.sendbyte_lem, map_map_option, append_assoc)
        (map_option_ext (row srv rel tuple) _ _ (λ cs. rw (h cs)))

  old_lem :
      (tuple : Tuple) (g : List Cell → RowChange) (out : List ℕ)
      → ((cs : List Cell) → rows_bytes (g cs) ≡ b'K' ∷ tuple_bytes cs)
      → write_old pq srv rel (some tuple) out
        ≡ map_option (λ r. out ++ rows_bytes r) (map_option g (row srv rel tuple))
  unfolding write_old
  old_lem tuple g out h =
      simp (write_tuple_lem, pq.sendbyte_lem, map_map_option, append_assoc)
        (map_option_ext (row srv rel tuple) _ _ (λ cs. rw (h cs)))

  -- The rows of an update that carries an old row.
  both_lem :
      (old new : Tuple) (out : List ℕ)
      → (write_old pq srv rel (some old) out >>= λ out'.
          write_tuple pq srv rel new (pq.sendbyte out' b'N'))
        ≡ map_option (λ r. out ++ rows_bytes r) (change_of srv rel (update (some old) new))
  unfolding write_old change_of rows_bytes
  both_lem old new out =
      simp (write_tuple_lem, pq.sendbyte_lem, append_assoc)
        (elim (Option-cases (row srv rel old)) [
          | inl e ↦ rw e
          | inr (o, e) ↦ rw e (elim (Option-cases (row srv rel new)) [
            | inl k ↦ rw k
            | inr (n, k) ↦ rw k (simp append_assoc)
          ])
        ])

  both_kinds :
      (old new : Tuple)
      → AllSome (λ r. change_kind r ≡ b'U') (change_of srv rel (update (some old) new))
  unfolding change_of change_kind
  both_kinds old new = elim (Option-cases (row srv rel old)) [
    | inl e ↦ rw e tt
    | inr (o, e) ↦ rw e (AllSome-map_option _ _ (row srv rel new) (λ cs. refl))
  ]

  -- With every switch on, every insert, update or delete puts exactly the bytes of the row
  -- message that describes it behind the buffer; the callback fails on the changes that have no
  -- description.
  pub pg_decode_change-message_bytes :
      (change : Change Tuple) (out : List ℕ)
      → IsRowChange change
      → pg_decode_change pq srv opts rel change out
        ≡ map_option (λ m. out ++ message_bytes m) (describe srv rel change)
  unfolding pg_decode_change change_of rows_bytes write_old
  pg_decode_change-message_bytes (insert new) out h = rw (kind_byte out b'I' (omega arith)) (
      after_rel false _ _ _ (λ front. rows_lem new RowChange.insert front (λ cs. refl))
      ∙ to_message b'I' (insert new) out
          (AllSome-map_option _ _ (row srv rel new) (λ cs. unfold change_kind in refl)))
  pg_decode_change-message_bytes (update none new) out h = rw (kind_byte out b'U' (omega arith)) (
      after_rel true _ _ _ (λ front. rows_lem new (RowChange.update none) front (λ cs. refl))
      ∙ to_message b'U' (update none new) out
          (AllSome-map_option _ _ (row srv rel new) (λ cs. unfold change_kind in refl)))
  pg_decode_change-message_bytes (update (some old) new) out h =
      rw (kind_byte out b'U' (omega arith)) (
        after_rel true _ _ _ (both_lem old new)
        ∙ to_message b'U' (update (some old) new) out (both_kinds old new))
  pg_decode_change-message_bytes (delete none) out h = rw (kind_byte out b'D' (omega arith)) (
      after_rel true _ _ (some (RowChange.delete none))
        (λ front. ap some (kind_byte front b'E' (omega arith)))
      ∙ to_message b'D' (delete none) out (unfold change_kind in refl))
  pg_decode_change-message_bytes (delete (some old)) out h = rw (kind_byte out b'D' (omega arith)) (
      after_rel true _ _ _
        (λ front. old_lem old (λ o. RowChange.delete (some o)) front (λ cs. refl))
      ∙ to_message b'D' (delete (some old)) out
          (AllSome-map_option _ _ (row srv rel old) (λ cs. unfold change_kind in refl)))
  pg_decode_change-message_bytes other out h = absurd h
