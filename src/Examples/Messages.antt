-- ===== src/Examples/Messages.antt =====
-- That the example messages fit the wire.
use rds_dbsync.Base.{
  ◌≡◌, refl, Bool, true, false, ◌&&◌, none, some, [], ◌∷◌, arith, Text, IsCString, All, codes, ltb,
  ltb→lt,
}
use rds_dbsync.Wire
use rds_dbsync.Wire.{
  FitsMessage, FitsColumn, FitsRow, FitsKey, FitsOption, RowChange, update, delete,
}
use rds_dbsync.Examples.{columns, row, old_row, inserted, updated, moved, unkeyed_moved, deleted}

abbrev no_zero : Text → Bool
no_zero [] = true
no_zero (c ∷ cs) = ltb 0 c && no_zero cs

and_parts : (a b : Bool) → (a && b) ≡ true → (a ≡ true) × (b ≡ true)
and_parts true b h = (refl, h)
and_parts false b h = cc

pub c_string_lem : (t : Text) → no_zero t ≡ true → IsCString t
c_string_lem [] h = tt
c_string_lem (c ∷ cs) h =
    let (first, rest) = and_parts (ltb 0 c) (no_zero cs) h in
    (ltb→lt 0 c first, c_string_lem cs rest)

columns_fit : All FitsColumn columns
columns_fit = (
  (
    (c_string_lem (codes "id") refl, omega arith),
    (c_string_lem (codes "integer") refl, omega arith),
  ),
  (
    (
      (c_string_lem (codes "name") refl, omega arith),
      (c_string_lem (codes "text") refl, omega arith),
    ),
    tt,
  ),
)

pub row-FitsRow : FitsRow row
row-FitsRow = (
  (
    (c_string_lem (codes "7") refl, omega arith),
    ((c_string_lem (codes "it's") refl, omega arith), tt),
  ),
  omega arith,
)

pub old_row-FitsRow : FitsRow old_row
old_row-FitsRow = (((c_string_lem (codes "6") refl, omega arith), (tt, tt)), omega arith)

key-FitsKey : FitsKey (codes "id" ∷ [])
key-FitsKey = (((c_string_lem (codes "id") refl, omega arith), tt), omega arith)

pub inserted-FitsMessage : FitsMessage inserted
inserted-FitsMessage = record {
  schema_fits = (c_string_lem (codes "public") refl, omega arith);
  table_fits = (c_string_lem (codes "items") refl, omega arith);
  columns_fit = columns_fit;
  columns_bound = omega arith;
  key_fits = tt;
  old_fits = tt;
  new_fits = row-FitsRow;
}

-- A message about the items with the key.
keyed-FitsMessage :
    (c : RowChange)
    → FitsOption FitsRow (Wire.old_row c)
    → FitsOption FitsRow (Wire.new_row c)
    → FitsMessage (record updated { change = c })
keyed-FitsMessage c old_fits new_fits = record {
  schema_fits = inserted-FitsMessage.schema_fits;
  table_fits = inserted-FitsMessage.table_fits;
  columns_fit = columns_fit;
  columns_bound = omega arith;
  key_fits = key-FitsKey;
  old_fits = old_fits;
  new_fits = new_fits;
}

pub updated-FitsMessage : FitsMessage updated
updated-FitsMessage = keyed-FitsMessage (update none row) tt row-FitsRow

pub moved-FitsMessage : FitsMessage moved
moved-FitsMessage = keyed-FitsMessage (update (some old_row) row) old_row-FitsRow row-FitsRow

pub deleted-FitsMessage : FitsMessage deleted
deleted-FitsMessage = keyed-FitsMessage (delete (some old_row)) old_row-FitsRow tt

pub unkeyed_moved-FitsMessage : FitsMessage unkeyed_moved
unkeyed_moved-FitsMessage = record {
  schema_fits = moved-FitsMessage.schema_fits;
  table_fits = moved-FitsMessage.table_fits;
  columns_fit = columns_fit;
  columns_bound = omega arith;
  key_fits = tt;
  old_fits = old_row-FitsRow;
  new_fits = row-FitsRow;
}
