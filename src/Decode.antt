-- ===== src/Decode.antt =====
-- dbsync/pg_logicaldecode.c: from a logical decoding message to `ALI_PG_DECODE_MESSAGE`.
-- A `none` is a write outside an array of the message, which C leaves undefined.
pub mod Parts
pub mod Columns
pub mod Keys
pub mod Tuples
pub mod Heads
pub mod Rows
pub mod Transactions
use rds_dbsync.Base.{
  ℕ, zero, suc, ◌+◌, ◌≡◌, Bool, true, false, ◌&&◌, ◌||◌, not, Option, none, some, List, [], ◌∷◌,
  Text, ltb, ◌==◌, if◌then◌else◌, array, store, as_text,
}
use rds_dbsync.Pqformat.{Pqformat, Reader}
use rds_dbsync.Message.{
  DecodeTupleData, DecodeMessage, max_tuple_attribute_number, msgkind_begin, msgkind_commit,
  msgkind_insert, msgkind_update, msgkind_delete, rounds,
}
use rds_dbsync.Decode.Parts.{getmsgbyte, getmsgint, getmsgint64, getmsgbytes}
pub use rds_dbsync.Decode.Parts.{pure, ◌>>=◌, as_char}
unfoldable pub use rds_dbsync.Decode.Parts.{
  checked_store, read_column, read_columns, read_key_names, read_keys, read_key_section,
  process_read_colunm_info, read_value, read_values, read_tuple_parts,
}

-- The kinds of message.
abbrev pub is_action : ℕ → Bool
is_action c = c == b'B' || (c == b'C' || (c == b'I' || (c == b'U' || c == b'D')))

module _ (pq : Pqformat) where
  pub process_remote_begin : DecodeMessage → Reader (DecodeMessage × Bool)
  process_remote_begin msg = do
    flags ← getmsgint pq 4
    origlsn ← getmsgint64 pq
    committime ← getmsgint64 pq
    remote_xid ← getmsgint pq 4
    pure (
      record msg { kind = msgkind_begin; lsn = origlsn; tm = committime; xid = remote_xid },
      true,
    )

  commit_fields : DecodeMessage → Reader (DecodeMessage × Bool)
  commit_fields msg = do
    commit_lsn ← getmsgint64 pq
    end_lsn ← getmsgint64 pq
    committime ← getmsgint64 pq
    pure (
      record msg { kind = msgkind_commit; lsn = commit_lsn; tm = committime; end_lsn = end_lsn },
      true,
    )

  pub process_remote_commit : DecodeMessage → Reader (DecodeMessage × Bool)
  unfolding commit_fields
  process_remote_commit msg = do
    flags ← getmsgint pq 4
    if flags == 0 then commit_fields msg else pure (msg, false)

  abbrev read_newtuple : DecodeMessage → Reader (DecodeMessage × Bool)
  read_newtuple msg = do
    (tup, rc) ← read_tuple_parts pq msg.newtuple
    pure (record msg { newtuple = tup }, rc)

  abbrev read_oldtuple : DecodeMessage → Reader (DecodeMessage × Bool)
  read_oldtuple msg = do
    (tup, rc) ← read_tuple_parts pq msg.oldtuple
    pure (record msg { oldtuple = tup }, rc)

  -- The schema and the table, which every row message names first.
  pub read_rel : DecodeMessage → Reader DecodeMessage
  read_rel msg = do
    nspnamelen ← getmsgint pq 2
    schemaname ← getmsgbytes pq nspnamelen
    relnamelen ← getmsgint pq 2
    relname ← getmsgbytes pq relnamelen
    pure (record msg { relname = relname; schemaname = schemaname })

  -- `if (action == 'C') { process_read_colunm_info(s, msg); action = pq_getmsgbyte(s); }`,
  -- which drops the routine's return value.
  pub read_column_section : ℕ → DecodeMessage → Reader (DecodeMessage × ℕ)
  read_column_section action msg =
      if action == b'C'
      then (do
        (msg', rc) ← process_read_colunm_info pq msg
        action' ← getmsgbyte pq
        pure (msg', action'))
      else pure (msg, action)

  pub process_remote_insert : DecodeMessage → Reader (DecodeMessage × Bool)
  process_remote_insert msg = do
    named ← read_rel (record msg { kind = msgkind_insert })
    action ← getmsgbyte pq
    if action == b'N' || action == b'C'
        then (do
          (msg', action') ← read_column_section action named
          if action' == b'N' then read_newtuple msg' else pure (msg', false))
        else pure (named, false)

  -- From the `'K'` test of `process_remote_update` on.
  pub update_tuples : ℕ → DecodeMessage → Reader (DecodeMessage × Bool)
  update_tuples action msg =
      if action == b'K'
      then (do
        (msg', rc) ← read_oldtuple (record msg { has_key_or_old = true })
        action' ← getmsgbyte pq
        if action' == b'N' then read_newtuple msg' else pure (msg', false))
      else if action == b'N'
      then read_newtuple msg
      else pure (msg, false)

  pub process_remote_update : DecodeMessage → Reader (DecodeMessage × Bool)
  process_remote_update msg = do
    named ← read_rel (record msg { kind = msgkind_update })
    action ← getmsgbyte pq
    if action == b'K' || (action == b'N' || action == b'C')
        then (do
          (msg', action') ← read_column_section action named
          if action' == b'K' || action' == b'N'
              then update_tuples action' msg'
              else pure (msg', false))
        else pure (named, false)

  pub delete_tuple : ℕ → DecodeMessage → Reader (DecodeMessage × Bool)
  delete_tuple action msg =
      if action == b'E'
      then pure (msg, true)
      else read_oldtuple (record msg { has_key_or_old = true })

  pub process_remote_delete : DecodeMessage → Reader (DecodeMessage × Bool)
  process_remote_delete msg = do
    named ← read_rel (record msg { kind = msgkind_delete })
    action ← getmsgbyte pq
    if action == b'K' || (action == b'E' || action == b'C')
        then (do
          (msg', action') ← read_column_section action named
          if action' == b'K' || action' == b'E'
              then delete_tuple action' msg'
              else pure (msg', false))
        else pure (named, false)

  -- The five handlers; the caller drops their return value.
  pub dispatch : ℕ → DecodeMessage → Reader (DecodeMessage × Bool)
  dispatch action msg =
      if action == b'B'
      then process_remote_begin msg
      else if action == b'C'
      then process_remote_commit msg
      else if action == b'I'
      then process_remote_insert msg
      else if action == b'U'
      then process_remote_update msg
      else process_remote_delete msg

  pub bdr_process_remote_action : DecodeMessage → Reader (DecodeMessage × Bool)
  bdr_process_remote_action msg = do
    action ← getmsgbyte pq
    if is_action action
        then (do (msg', rc) ← dispatch action msg; pure (msg', true))
        else pure (msg, false)
