-- ===== src/Decode/Parts.antt =====
-- The readers of dbsync/pg_logicaldecode.c that the handlers share: the columns and the key, and a
-- row. A `none` is a write outside an array of the message, which C leaves undefined.
use rds_dbsync.Base.{
  ℕ, zero, suc, Bool, true, false, Option, none, some, [], Text, ltb, ◌==◌, if◌then◌else◌, array,
  store, as_text,
}
use rds_dbsync.Pqformat.{Pqformat, Reader}
use rds_dbsync.Message.{DecodeTupleData, DecodeMessage, max_tuple_attribute_number, rounds}

abbrev pub pure {ℓ} : {A : Type ℓ} → A → Reader A
pure a s = some (a, s)

infixl 5 ◌>>=◌
abbrev pub ◌>>=◌ {ℓ κ} : {A : Type ℓ} {B : Type κ} → Reader A → (A → Reader B) → Reader B
◌>>=◌ m f s = elim (m s) [ none ↦ none | some (a, s') ↦ f a s' ]

-- `char c = pq_getmsgbyte(s)`: -1 becomes the byte 255.
abbrev pub as_char : Option ℕ → ℕ
as_char none = 255
as_char (some c) = c

-- A write to `array[i]`.
unfoldable pub checked_store {ℓ} : {A : Type ℓ} → (ℕ → A) → ℕ → A → Reader (ℕ → A)
checked_store f i v s = if ltb i max_tuple_attribute_number then some (store f i v, s) else none

module _ (pq : Pqformat) where
  abbrev pub getmsgbyte : Reader ℕ
  getmsgbyte s = let (c, s') = pq.getmsgbyte s in some (as_char c, s')

  abbrev pub getmsgint : ℕ → Reader ℕ
  getmsgint b s = some (pq.getmsgint s b)

  abbrev pub getmsgint64 : Reader ℕ
  getmsgint64 s = some (pq.getmsgint64 s)

  abbrev pub getmsgbytes : ℕ → Reader (Option Text)
  getmsgbytes len s = let (p, s') = pq.getmsgbytes s len in some (as_text p, s')

  -- The name, and the type behind it.
  read_column_names : ℕ → ℕ → DecodeMessage → Reader DecodeMessage
  read_column_names i len msg = do
    name ← getmsgbytes len
    names ← checked_store msg.attname i name
    type_len ← getmsgint 2
    type_name ← getmsgbytes type_len
    types ← checked_store msg.atttype i type_name
    pure (record msg { attname = names; atttype = types })

  -- One round of the first loop of `process_read_colunm_info`.
  unfoldable pub read_column : ℕ → DecodeMessage → Reader DecodeMessage
  unfolding read_column_names
  read_column i msg = do
    len ← getmsgint 2
    if len == 0 then pure msg else read_column_names i len msg

  unfoldable pub read_columns : ℕ → ℕ → DecodeMessage → Reader DecodeMessage
  read_columns zero i msg = pure msg
  read_columns (suc n) i msg = do msg' ← read_column i msg; read_columns n (suc i) msg'

  unfoldable pub read_key_names : ℕ → ℕ → DecodeMessage → Reader DecodeMessage
  read_key_names zero i msg = pure msg
  read_key_names (suc n) i msg = do
    len ← getmsgint 2
    name ← getmsgbytes len
    names ← checked_store msg.k_attname i name
    read_key_names n (suc i) (record msg { k_attname = names })

  unfoldable pub read_keys : DecodeMessage → Reader (DecodeMessage × Bool)
  read_keys msg = do
    k_natt ← getmsgint 2
    msg' ← read_key_names k_natt 0 (record msg { k_natt = k_natt })
    pure (msg', true)

  -- From the action byte behind the columns on.
  unfoldable pub read_key_section : DecodeMessage → Reader (DecodeMessage × Bool)
  read_key_section msg = do
    action ← getmsgbyte
    if action == b'P'
        then pure (msg, true)
        else if action == b'M'
        then read_keys msg
        else pure (msg, false)

  unfoldable pub process_read_colunm_info : DecodeMessage → Reader (DecodeMessage × Bool)
  process_read_colunm_info msg = do
    natt ← getmsgint 2
    msg' ← read_columns natt 0 (record msg { natt = natt })
    read_key_section msg'

  -- The three kinds of the `switch` of `read_tuple_parts`.
  null_value : ℕ → DecodeTupleData → Reader (DecodeTupleData × Bool)
  null_value i tup = do
    svalues ← checked_store tup.svalues i none
    pure (record tup { svalues = svalues }, true)

  unchanged_value : ℕ → DecodeTupleData → Reader (DecodeTupleData × Bool)
  unchanged_value i tup = do
    isnull ← checked_store tup.isnull i true
    changed ← checked_store tup.changed i false
    svalues ← checked_store tup.svalues i none
    pure (record tup { isnull = isnull; changed = changed; svalues = svalues }, true)

  text_value : ℕ → DecodeTupleData → Reader (DecodeTupleData × Bool)
  text_value i tup = do
    isnull ← checked_store tup.isnull i false
    len ← getmsgint 4
    value ← getmsgbytes len
    svalues ← checked_store tup.svalues i value
    pure (record tup { isnull = isnull; svalues = svalues }, true)

  -- One round of the loop; `false` is its early return.
  unfoldable pub read_value : ℕ → DecodeTupleData → Reader (DecodeTupleData × Bool)
  unfolding null_value unchanged_value text_value
  read_value i tup = do
    kind ← getmsgbyte
    if kind == b'n'
        then null_value i tup
        else if kind == b'u'
        then unchanged_value i tup
        else if kind == b't'
        then text_value i tup
        else pure (tup, false)

  unfoldable pub read_values : ℕ → ℕ → DecodeTupleData → Reader (DecodeTupleData × Bool)
  read_values zero i tup = pure (tup, true)
  read_values (suc n) i tup = do
    (tup', going) ← read_value i tup
    if going then read_values n (suc i) tup' else pure (tup', false)

  unfoldable pub read_tuple_parts : DecodeTupleData → Reader (DecodeTupleData × Bool)
  read_tuple_parts tup = do
    action ← getmsgbyte
    if action == b'T'
        then (do
          rnatts ← getmsgint 4
          read_values (rounds rnatts) 0
              (record tup { natt = rnatts; isnull = array true []; changed = array true [] }))
        else pure (tup, false)
