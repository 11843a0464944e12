-- ===== src/Decode/Rows.antt =====
-- `bdr_process_remote_action` of dbsync/pg_logicaldecode.c on whole row messages.
use rds_dbsync.Base.{
  ℕ, ◌<◌, ◌≡◌, refl, true, none, some, List, ◌∷◌, ◌++◌, append_assoc, subst, arith,
}
use rds_dbsync.Pqformat.{Pqformat}
use rds_dbsync.Message.{zero_message}
use rds_dbsync.Wire.{
  Cell, RowChange, insert, update, delete, RowMessage, message_bytes, rows_bytes, change_kind,
  message_of, FitsMessage, FitsRow, FitsOption, tuple_bytes, tuple_of, new_row, old_row,
}
use rds_dbsync.Decode.{
  update_tuples, delete_tuple, process_remote_insert, process_remote_update, process_remote_delete,
  dispatch, bdr_process_remote_action, is_action, ◌>>=◌,
}
use rds_dbsync.Decode.Heads.{
  described, head_bytes, getmsgbyte-columns_bytes, read_column_section-info, read_rel-head,
  read_newtuple-bytes, read_oldtuple-bytes,
}

module _ (pq : Pqformat) where
  insert-bytes :
      (m : RowMessage) (row : List Cell) (rest : List ℕ)
      → FitsMessage m
      → FitsRow row
      → process_remote_insert pq zero_message (head_bytes m (b'N' ∷ (tuple_bytes row ++ rest)))
        ≡ some ((record (described b'I' m) { newtuple = tuple_of row }, true), rest)
  unfolding process_remote_insert
  insert-bytes m row rest h hr =
      let behind : List ℕ = tuple_bytes row ++ rest in
      rw (read_rel-head pq m b'I' (b'N' ∷ behind) h, ◌>>=◌)
        (rw (getmsgbyte-columns_bytes pq m (b'N' ∷ behind)) (
          rw (read_column_section-info pq m b'I' b'N' behind h (omega arith), ◌>>=◌)
            (read_newtuple-bytes pq (described b'I' m) row rest refl hr)))

  update_none-bytes :
      (m : RowMessage) (row : List Cell) (rest : List ℕ)
      → FitsMessage m
      → FitsRow row
      → process_remote_update pq zero_message (head_bytes m (b'N' ∷ (tuple_bytes row ++ rest)))
        ≡ some ((record (described b'U' m) { newtuple = tuple_of row }, true), rest)
  unfolding process_remote_update update_tuples
  update_none-bytes m row rest h hr =
      let behind : List ℕ = tuple_bytes row ++ rest in
      rw (read_rel-head pq m b'U' (b'N' ∷ behind) h, ◌>>=◌)
        (rw (getmsgbyte-columns_bytes pq m (b'N' ∷ behind)) (
          rw (read_column_section-info pq m b'U' b'N' behind h (omega arith), ◌>>=◌)
            (read_newtuple-bytes pq (described b'U' m) row rest refl hr)))

  update_some-bytes :
      (m : RowMessage) (old row : List Cell) (rest : List ℕ)
      → FitsMessage m
      → FitsRow old
      → FitsRow row
      → process_remote_update pq zero_message
          (head_bytes m (b'K' ∷ (tuple_bytes old ++ (b'N' ∷ (tuple_bytes row ++ rest)))))
        ≡ some (
          (
            record (described b'U' m) {
              has_key_or_old = true;
              oldtuple = tuple_of old;
              newtuple = tuple_of row;
            },
            true,
          ),
          rest,
        )
  unfolding process_remote_update update_tuples
  update_some-bytes m old row rest h ho hr =
      let behind : List ℕ = b'N' ∷ (tuple_bytes row ++ rest) in
      rw (read_rel-head pq m b'U' (b'K' ∷ (tuple_bytes old ++ behind)) h, ◌>>=◌)
        (rw (getmsgbyte-columns_bytes pq m (b'K' ∷ (tuple_bytes old ++ behind))) (
          rw
            (
              read_column_section-info pq m b'U' b'K' (tuple_bytes old ++ behind) h (omega arith),
              ◌>>=◌,
            )
            (rw
              (
                read_oldtuple-bytes pq (record (described b'U' m) { has_key_or_old = true }) old
                    behind refl ho,
                pq.getmsgbyte_lem b'N' (tuple_bytes row ++ rest) (omega arith),
                ◌>>=◌,
              )
              (read_newtuple-bytes pq
                (record (described b'U' m) { has_key_or_old = true; oldtuple = tuple_of old }) row
                rest refl hr))))

  delete_none-bytes :
      (m : RowMessage) (rest : List ℕ)
      → FitsMessage m
      → process_remote_delete pq zero_message (head_bytes m (b'E' ∷ rest))
        ≡ some ((described b'D' m, true), rest)
  unfolding process_remote_delete delete_tuple
  delete_none-bytes m rest h =
      rw (read_rel-head pq m b'D' (b'E' ∷ rest) h, ◌>>=◌)
        (rw (getmsgbyte-columns_bytes pq m (b'E' ∷ rest))
          (rw (read_column_section-info pq m b'D' b'E' rest h (omega arith), ◌>>=◌)))

  delete_some-bytes :
      (m : RowMessage) (old : List Cell) (rest : List ℕ)
      → FitsMessage m
      → FitsRow old
      → process_remote_delete pq zero_message (head_bytes m (b'K' ∷ (tuple_bytes old ++ rest)))
        ≡ some (
          (record (described b'D' m) { has_key_or_old = true; oldtuple = tuple_of old }, true),
          rest,
        )
  unfolding process_remote_delete delete_tuple
  delete_some-bytes m old rest h ho =
      let behind : List ℕ = tuple_bytes old ++ rest in
      rw (read_rel-head pq m b'D' (b'K' ∷ behind) h, ◌>>=◌)
        (rw (getmsgbyte-columns_bytes pq m (b'K' ∷ behind)) (
          rw (read_column_section-info pq m b'D' b'K' behind h (omega arith), ◌>>=◌)
            (read_oldtuple-bytes pq (record (described b'D' m) { has_key_or_old = true }) old rest
              refl ho)))

  -- The handler that the first byte chooses, on the bytes behind it.
  dispatch-bytes :
      (m : RowMessage) (c : RowChange) (rest : List ℕ)
      → m.change ≡ c
      → FitsMessage m
      → dispatch pq (change_kind c) zero_message (head_bytes m (rows_bytes c ++ rest))
        ≡ some ((message_of (record m { change = c }), true), rest)
  unfolding dispatch change_kind rows_bytes message_of
  dispatch-bytes m (insert row) rest e h =
      insert-bytes m row rest h (subst (λ c. FitsOption FitsRow (new_row c)) e h.new_fits)
  dispatch-bytes m (update none row) rest e h =
      update_none-bytes m row rest h (subst (λ c. FitsOption FitsRow (new_row c)) e h.new_fits)
  dispatch-bytes m (update (some old) row) rest e h = rw append_assoc (
      update_some-bytes m old row rest h (subst (λ c. FitsOption FitsRow (old_row c)) e h.old_fits)
        (subst (λ c. FitsOption FitsRow (new_row c)) e h.new_fits))
  dispatch-bytes m (delete none) rest e h = delete_none-bytes m rest h
  dispatch-bytes m (delete (some old)) rest e h =
      delete_some-bytes m old rest h (subst (λ c. FitsOption FitsRow (old_row c)) e h.old_fits)

  change_kind-is_action :
      (c : RowChange) → (change_kind c < 256) × (is_action (change_kind c) ≡ true)
  unfolding change_kind
  change_kind-is_action (insert row) = (omega arith, refl)
  change_kind-is_action (update old row) = (omega arith, refl)
  change_kind-is_action (delete old) = (omega arith, refl)

  -- From a cleared message the receiver reads back what a row message that fits the wire
  -- describes, and leaves exactly what stands behind it; no write leaves the message's arrays.
  pub bdr_process_remote_action-message_bytes :
      (m : RowMessage) (rest : List ℕ)
      → FitsMessage m
      → bdr_process_remote_action pq zero_message (message_bytes m ++ rest)
        ≡ some ((message_of m, true), rest)
  unfolding bdr_process_remote_action message_bytes
  bdr_process_remote_action-message_bytes m rest h =
      simp
        (
          append_assoc,
          pq.getmsgbyte_lem (change_kind m.change) (head_bytes m (rows_bytes m.change ++ rest))
              (change_kind-is_action m.change).0,
          (change_kind-is_action m.change).1,
        )
        (rw (dispatch-bytes m m.change rest refl h, ◌>>=◌))
