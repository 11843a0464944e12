-- ===== src/Plugin/Described.antt =====
-- Which row message a change of a relation is, with every switch of the output plugin on.
use rds_dbsync.Base.{◌≡◌, Bool, true, false, Option, none, some, List, map, Text, ◌>>=◌, map_option}
use rds_dbsync.Wire.{Cell, RowChange, RowMessage}
use rds_dbsync.Plugin.{
  AttrNumber, Relation, Server, OutputData, Change, insert, update, delete, other, key_names,
}
use rds_dbsync.Plugin.Format.{column_of, cells_of}

-- Every switch that the startup callback sets for a streaming client.
pub record IsStreaming (opts : OutputData) : Type 0 where
  pub key_info : opts.output_key_info ≡ true
  pub column_info : opts.output_column_info ≡ true
  pub type_as_name : opts.output_type_as_name ≡ true

-- An update or a delete, whose message may name the key.
abbrev pub has_key : {Tuple : Type 0} → Change Tuple → Bool
has_key (update old new) = true
has_key (delete old) = true
has_key _ = false

-- Not the `default` of the plugin's switch.
abbrev pub IsRowChange : {Tuple : Type 0} → Change Tuple → Type 0
IsRowChange other = ⊥
IsRowChange _ = Unit {0}

module _ {Datum Tuple : Type 0} (srv : Server Datum Tuple) where
  -- The key that a message names: none for an insert.
  unfoldable pub key_of : Relation → Bool → Option (List AttrNumber) → Option (Option (List Text))
  key_of rel false keys = some none
  key_of rel true none = some none
  key_of rel true (some keys) = map_option some (key_names srv rel keys)

  abbrev pub row : Relation → Tuple → Option (List Cell)
  row rel tuple = cells_of srv 0 rel.attrs tuple

  unfoldable pub change_of : Relation → Change Tuple → Option RowChange
  change_of rel (insert new) = map_option RowChange.insert (row rel new)
  change_of rel (update none new) = map_option (RowChange.update none) (row rel new)
  change_of rel (update (some old) new) =
      row rel old >>= λ o. map_option (RowChange.update (some o)) (row rel new)
  change_of rel (delete none) = some (RowChange.delete none)
  change_of rel (delete (some old)) = map_option (λ o. RowChange.delete (some o)) (row rel old)
  change_of rel other = none

  -- The row message that a change of a relation is.
  unfoldable pub describe : Relation → Change Tuple → Option RowMessage
  describe rel change = do
    schema ← srv.get_namespace_name rel.relnamespace
    key ← key_of rel (has_key change) rel.replident_keys
    c ← change_of rel change
    some (record {
      schema = schema;
      table = rel.relname;
      columns = map (column_of srv) rel.attrs;
      key = key;
      change = c;
    })
