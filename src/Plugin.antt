-- ===== src/Plugin.antt =====
-- ali_decoding/ali_decoding.c: the output plugin. A callback takes the buffer as
-- OutputPluginPrepareWrite leaves it and returns what OutputPluginWrite sends. A `none` is an
-- error report of the server, or a use of a null pointer.
pub mod Startup
pub mod Format
pub mod Described
pub mod Changes
use rds_dbsync.Base.{
  ℕ, zero, suc, ◌+◌, Bool, true, false, ◌&&◌, ◌||◌, Option, none, some, List, [], ◌∷◌, ◌++◌, Text,
  length, c_bytes, ◌==◌, if◌then◌else◌, ◌>>=◌,
}
use rds_dbsync.Pqformat.{Pqformat}

-- An AttrNumber: `system n` is -n.
pub data AttrNumber : Type 0 where
  user system : ℕ → AttrNumber

pub record Attribute : Type 0 where
  pub attname : Text
  pub atttypid : ℕ
  pub attnum : AttrNumber
  pub attisdropped : Bool
  pub is_varlena : Bool  -- attlen == -1

-- `replident_keys` is the indkey of the replica identity's index; `none` if there is no index.
pub record Relation : Type 0 where
  pub relid : ℕ
  pub relnamespace : ℕ
  pub relname : Text
  pub attrs : List Attribute
  pub replident_keys : Option (List AttrNumber)

-- The functions of the server that the plugin calls.
pub record Server (Datum Tuple : Type 0) : Type 0 where
  pub get_namespace_name : ℕ → Option Text
  pub quote_identifier : Text → Text
  pub format_type_be : ℕ → Text
  -- The `typoutput` that the type cache holds.
  pub type_output : ℕ → Option ℕ
  pub output_function_call : ℕ → Datum → Text
  pub is_external_ondisk : Datum → Bool
  -- `heap_deform_tuple` at a column; `none` where it sets `isnull`.
  pub deform : Tuple → ℕ → Option Datum
  pub get_relid_attribute_name : ℕ → ℕ → Text
  -- ObjectIdAttributeNumber, without its sign.
  pub object_id_attribute_number : ℕ

-- The switches of `Ali_OutputData` that the writers read.
pub record OutputData : Type 0 where
  pub client_version : ℕ
  pub client_encoding : Option Text
  pub output_key_info : Bool
  pub output_column_info : Bool
  pub output_type_as_name : Bool

pub data Change (Tuple : Type 0) : Type 0 where
  insert : Tuple → Change Tuple
  update : Option Tuple → Tuple → Change Tuple
  delete : Option Tuple → Change Tuple
  other : Change Tuple

pub record Txn : Type 0 where
  pub final_lsn : ℕ
  pub end_lsn : ℕ
  pub commit_time : ℕ
  pub xid : ℕ

abbrev pub is_system : AttrNumber → Bool
is_system (user n) = false
is_system (system n) = true

module _ {Datum Tuple : Type 0} (srv : Server Datum Tuple) where
  -- The names that the loop over the index gathers in `latt`.
  unfoldable pub key_names : Relation → List AttrNumber → Option (List Text)
  key_names rel [] = some []
  key_names rel (user n ∷ keys) = do
    names ← key_names rel keys
    some (srv.get_relid_attribute_name rel.relid n ∷ names)
  key_names rel (system n ∷ keys) =
      let rest = key_names rel keys in if n == srv.object_id_attribute_number then rest else none

module _ (pq : Pqformat) where
  -- A length and the bytes of a string with its terminating zero.
  pub send_string : ℕ → Text → List ℕ → List ℕ
  send_string b t out = pq.append_binary (pq.sendint out (length t + 1) b) (c_bytes t)

  pub pg_decode_begin_txn : Txn → List ℕ → List ℕ
  pg_decode_begin_txn txn out =
      let out1 = pq.sendint (pq.sendbyte out b'B') 0 4 in
      let out2 = pq.sendint64 (pq.sendint64 out1 txn.final_lsn) txn.commit_time in
      pq.sendint out2 txn.xid 4

  pub pg_decode_commit_txn : Txn → ℕ → List ℕ → List ℕ
  pg_decode_commit_txn txn commit_lsn out =
      let out1 = pq.sendint (pq.sendbyte out b'C') 0 4 in
      pq.sendint64 (pq.sendint64 (pq.sendint64 out1 commit_lsn) txn.end_lsn) txn.commit_time

  pub write_key_names : List Text → List ℕ → List ℕ
  write_key_names [] out = out
  write_key_names (name ∷ names) out = write_key_names names (send_string 2 name out)

  module _ {Datum Tuple : Type 0} (srv : Server Datum Tuple) where
    -- One round of the loop of `write_tuple`.
    pub write_value : Attribute → Option Datum → List ℕ → Option (List ℕ)
    write_value att none out = some (pq.sendbyte out b'n')
    write_value att (some datum) out =
        if att.attisdropped
        then some (pq.sendbyte out b'n')
        else if att.is_varlena && srv.is_external_ondisk datum
        then some (pq.sendbyte out b'u')
        else (do
          typoutput ← srv.type_output att.atttypid
          some (send_string 4 (srv.output_function_call typoutput datum) (pq.sendbyte out b't')))

    pub write_values : ℕ → List Attribute → Tuple → List ℕ → Option (List ℕ)
    write_values i [] tuple out = some out
    write_values i (att ∷ atts) tuple out = do
      out' ← write_value att (srv.deform tuple i) out
      write_values (suc i) atts tuple out'

    pub write_tuple : Relation → Tuple → List ℕ → Option (List ℕ)
    write_tuple rel tuple out =
        write_values 0 rel.attrs tuple (pq.sendint (pq.sendbyte out b'T') (length rel.attrs) 4)

    -- One round of the first loop of `write_colum_info`.
    pub write_column : OutputData → Attribute → List ℕ → List ℕ
    write_column opts att out =
        if att.attisdropped
        then pq.sendint out 0 2
        else if is_system att.attnum
        then pq.sendint out 0 2
        else (let out' = send_string 2 (srv.quote_identifier att.attname) out in
            if opts.output_type_as_name
            then send_string 2 (srv.format_type_be att.atttypid) out'
            else out')

    pub write_columns : OutputData → List Attribute → List ℕ → List ℕ
    write_columns opts [] out = out
    write_columns opts (att ∷ atts) out = write_columns opts atts (write_column opts att out)

    pub write_keys : Relation → Option (List AttrNumber) → List ℕ → Option (List ℕ)
    write_keys rel none out = some (pq.sendbyte out b'P')
    write_keys rel (some keys) out = do
      names ← key_names srv rel keys
      some (write_key_names names (pq.sendint (pq.sendbyte out b'M') (length names) 2))

    pub write_colum_info : Relation → OutputData → Bool → List ℕ → Option (List ℕ)
    write_colum_info rel opts keyed out =
        let out' =
          write_columns opts rel.attrs (pq.sendint (pq.sendbyte out b'C') (length rel.attrs) 2) in
        if keyed && opts.output_key_info
        then write_keys rel rel.replident_keys out'
        else some (pq.sendbyte out' b'P')

    pub write_rel : Relation → OutputData → Bool → List ℕ → Option (List ℕ)
    write_rel rel opts keyed out = do
      nspname ← srv.get_namespace_name rel.relnamespace
      let out' = send_string 2 rel.relname (send_string 2 nspname out)
      if opts.output_column_info then write_colum_info rel opts keyed out' else some out'

    pub write_old : Relation → Option Tuple → List ℕ → Option (List ℕ)
    write_old rel none out = some out
    write_old rel (some old) out = write_tuple rel old (pq.sendbyte out b'K')

    pub pg_decode_change : OutputData → Relation → Change Tuple → List ℕ → Option (List ℕ)
    pg_decode_change opts rel (insert new) out = do
      out' ← write_rel rel opts false (pq.sendbyte out b'I')
      write_tuple rel new (pq.sendbyte out' b'N')
    pg_decode_change opts rel (update old new) out = do
      out' ← write_rel rel opts true (pq.sendbyte out b'U')
      out'' ← write_old rel old out'
      write_tuple rel new (pq.sendbyte out'' b'N')
    pg_decode_change opts rel (delete none) out = do
      out' ← write_rel rel opts true (pq.sendbyte out b'D')
      some (pq.sendbyte out' b'E')
    pg_decode_change opts rel (delete (some old)) out = do
      out' ← write_rel rel opts true (pq.sendbyte out b'D')
      write_old rel (some old) out'
    pg_decode_change opts rel other out = some out
