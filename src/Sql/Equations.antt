-- ===== src/Sql/Equations.antt =====
-- The loops of dbsync/utils.c that write `name=value` for the columns they keep: conditions and
-- assignments.
use rds_dbsync.Base.{
  ◌<◌, ℕ, ◌≡◌, refl, Bool, true, false, Option, none, some, List, [], ◌++◌, Text, codes, length,
  get_or, if◌then◌else◌, map_option,
}
use rds_dbsync.Message.{DecodeMessage, DecodeTupleData, rounds, rounds_small}
use rds_dbsync.Wire.{Column, dropped, live, Cell, null, unchanged, value, tuple_of, FitsRow}
use rds_dbsync.Quote.{Escapes, typed_literal}
use rds_dbsync.Sql.{join_loop, append_values}
use rds_dbsync.Sql.Loops.{join, join_loop-texts, texts-kept, kept, all_known}
use rds_dbsync.Sql.Cells.{
  Describes, is_live_column, in_where, in_set, equation_text, append_values_lem,
}

-- A cell whose value the message carries.
abbrev pub is_known : Cell → Bool
is_known unchanged = false
is_known cell = true

module _ (esc : Escapes) where
  -- A condition or an assignment.
  abbrev pub known_text : Column → Cell → Text
  known_text (live name type_name) null = name ++ codes "=null"
  known_text (live name type_name) (value t) = name ++ (codes "=" ++ typed_literal esc t type_name)
  known_text column cell = []

  -- The equations of the kept columns, if none of them is unchanged.
  abbrev pub equations : Text → (Column → Bool) → List Column → List Cell → Option Text
  equations sep keep columns row =
      if all_known keep is_known columns row
      then some (join sep true (kept keep known_text columns row))
      else none

  pub equation_text_lem :
      (column : Column) (cell : Cell)
      → is_live_column column ≡ true
      → equation_text esc column cell
        ≡ (if is_known cell then some (known_text column cell) else none)
  equation_text_lem dropped cell h = cc
  equation_text_lem (live name type_name) null h = refl
  equation_text_lem (live name type_name) unchanged h = refl
  equation_text_lem (live name type_name) (value t) h = refl

  pub map_join :
      (sep : Text) (b : Bool) (ts : List Text)
      → map_option (join sep true) (if b then some ts else none)
        ≡ (if b then some (join sep true ts) else none)
  map_join sep true ts = refl
  map_join sep false ts = refl

  pub join_loop-equations :
      (msg : DecodeMessage) (columns : List Column) (key : List Text) (tuple : DecodeTupleData)
      (row : List Cell) (sep : Text) (keep_at : ℕ → Option Bool) (keep : Column → Bool)
      → Describes msg columns key
      → tuple ≡ tuple_of row
      → FitsRow row
      → length row ≡ length columns
      → ((i : ℕ) → i < length row → keep_at i ≡ some (keep (get_or columns i dropped)))
      → ((column : Column) → keep column ≡ true → is_live_column column ≡ true)
      → join_loop sep keep_at (append_values esc msg tuple) (rounds tuple.natt) 0 true
        ≡ equations sep keep columns row
  join_loop-equations msg columns key tuple row sep keep_at keep d ht fits h hk hl =
      rw (ht, rounds_small (length row) fits.1)
        (rw
          (join_loop-texts dropped sep keep (equation_text esc) columns row keep_at
            (append_values esc msg (tuple_of row)) h hk
            (λ i. append_values_lem esc msg columns key row i d))
          (rw
            (texts-kept keep is_known (equation_text esc) known_text columns row
              (λ column cell k. equation_text_lem column cell (hl column k)))
            (map_join sep (all_known keep is_known columns row)
              (kept keep known_text columns row))))

pub in_where-is_live :
    (key : List Text) (column : Column) → in_where key column ≡ true → is_live_column column ≡ true
in_where-is_live key dropped h = cc
in_where-is_live key (live name type_name) h = refl

pub in_set-is_live :
    (key : List Text) (column : Column) → in_set key column ≡ true → is_live_column column ≡ true
in_set-is_live key dropped h = cc
in_set-is_live key (live name type_name) h = refl
