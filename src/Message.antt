-- ===== src/Message.antt =====
-- The decoded change message (dbsync/pg_logicaldecode.h). An array is a function of its index;
-- a `char *` is the C string that it points to, and `none` is NULL.
use rds_dbsync.Base.{
  ℕ, Bool, false, Option, none, Text, ◌≤◌, ◌≡◌, arith, ltb, if◌then◌else◌, ◌^◌, array, [],
}

abbrev pub max_tuple_attribute_number : ℕ
max_tuple_attribute_number = 1664

abbrev pub msgkind_begin : ℕ
msgkind_begin = b'B'

abbrev pub msgkind_commit : ℕ
msgkind_commit = b'C'

abbrev pub msgkind_insert : ℕ
msgkind_insert = b'I'

abbrev pub msgkind_update : ℕ
msgkind_update = b'U'

abbrev pub msgkind_delete : ℕ
msgkind_delete = b'D'

pub record DecodeTupleData : Type 0 where
  pub natt : ℕ  -- the bits of an int
  pub isnull : ℕ → Bool
  pub changed : ℕ → Bool
  pub svalues : ℕ → Option Text

-- The names on the right are those of `ALI_PG_DECODE_MESSAGE`; `type` is `kind`.
pub record DecodeMessage : Type 0 where
  pub kind : ℕ
  pub lsn : ℕ
  pub tm : ℕ
  pub xid : ℕ
  pub end_lsn : ℕ
  pub relname : Option Text
  pub schemaname : Option Text
  pub natt : ℕ
  pub attname : ℕ → Option Text
  pub atttype : ℕ → Option Text
  pub k_natt : ℕ
  pub k_attname : ℕ → Option Text
  pub has_key_or_old : Bool
  pub newtuple : DecodeTupleData
  pub oldtuple : DecodeTupleData

-- What `memset(.., 0, ..)` makes of them.
abbrev pub zero_tuple : DecodeTupleData
zero_tuple = record {
  natt = 0;
  isnull = array false [];
  changed = array false [];
  svalues = array none [];
}

abbrev pub zero_message : DecodeMessage
zero_message = record {
  kind = 0;
  lsn = 0;
  tm = 0;
  xid = 0;
  end_lsn = 0;
  relname = none;
  schemaname = none;
  natt = 0;
  attname = array none [];
  atttype = array none [];
  k_natt = 0;
  k_attname = array none [];
  has_key_or_old = false;
  newtuple = zero_tuple;
  oldtuple = zero_tuple;
}

-- How often `for (i = 0; i < n; i++)` runs, where `n` holds these bits of an int.
abbrev pub rounds : ℕ → ℕ
rounds n = if ltb n (2 ^ 31) then n else 0

-- The loop runs once for each column where there are no more than the arrays hold.
pub rounds_small : (n : ℕ) → n ≤ max_tuple_attribute_number → rounds n ≡ n
rounds_small n h = ground arith
