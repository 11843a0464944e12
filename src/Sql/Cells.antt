-- ===== src/Sql/Cells.antt =====
-- What dbsync/utils.c does at one column of a message: whether a loop keeps it, and what it
-- writes for its cell.
use rds_dbsync.Base.{
  ℕ, suc, ◌≤◌, ◌≡◌, refl, ap, ◌∙◌, Bool, true, false, not, Option, none, some, List, [], ◌∷◌, ◌++◌,
  map, append_assoc, arith, Text, codes, str_eq, length, get_or, array, ltb, if◌then◌else◌, ◌>>=◌,
  inl, inr, ◌⊎◌, length-snoc,
}
use rds_dbsync.Message.{DecodeMessage, rounds, rounds_small, max_tuple_attribute_number}
use rds_dbsync.Wire.{
  Column, dropped, live, Cell, null, unchanged, value, column_name, column_type, cell_isnull,
  cell_changed, cell_text, tuple_of,
}
use rds_dbsync.Quote.{Escapes, quote_literal_local, typed_literal}
use rds_dbsync.Sql.{
  insert_value, append_values, is_live, is_key_column, key_loop, is_where_column, is_set_column,
}
use rds_dbsync.Sql.Loops.{get_or-map}

-- The message has these columns and this key.
pub record Describes (msg : DecodeMessage) (columns : List Column) (key : List Text) : Type 0 where
  pub names : (i : ℕ) → msg.attname i ≡ column_name (get_or columns i dropped)
  pub types : (i : ℕ) → msg.atttype i ≡ column_type (get_or columns i dropped)
  pub key_count : msg.k_natt ≡ length key
  pub key_bound : length key ≤ max_tuple_attribute_number
  pub key_names : msg.k_attname ≡ array none (map some key)

-- A column that is not dropped.
abbrev pub is_live_column : Column → Bool
is_live_column dropped = false
is_live_column (live name type_name) = true

abbrev pub mem : Text → List Text → Bool
mem t [] = false
mem t (u ∷ us) = if str_eq t u then true else mem t us

-- A live column that the key names.
abbrev pub in_key : List Text → Column → Bool
in_key key dropped = false
in_key key (live name type_name) = mem name key

get_or-done :
    (done : List Text) (t : Text) (todo : List Text)
    → get_or (map some (done ++ t ∷ todo)) (length done) none ≡ some t
get_or-done [] t todo = refl
get_or-done (d ∷ done) t todo = get_or-done done t todo

if_some : (b c d : Bool) → (if b then some c else some d) ≡ some (if b then c else d)
if_some true c d = refl
if_some false c d = refl

key_loop-mem :
    (msg : DecodeMessage) (name : Text) (done todo : List Text)
    → msg.k_attname ≡ array none (map some (done ++ todo))
    → key_loop msg name (length todo) (length done) ≡ some (mem name todo)
unfolding key_loop
key_loop-mem msg name done [] h = refl
key_loop-mem msg name done (t ∷ todo) h =
    rw (ap (λ f. f (length done)) h, get_or-done done t todo, ◌>>=◌)
      (ap (λ more. if str_eq name t then some true else more)
          ((rw length-snoc at (key_loop-mem msg name (done ++ t ∷ []) todo (h ∙ rw append_assoc))))
        ∙ if_some (str_eq name t) true (mem name todo))

pub Column-cases :
    (c : Column) → (c ≡ dropped) ⊎ ((name : Text) × (type_name : Text) × (c ≡ live name type_name))
Column-cases dropped = inl refl
Column-cases (live name type_name) = inr (name, type_name, refl)

pub Cell-cases : (c : Cell) → (c ≡ null) ⊎ ((c ≡ unchanged) ⊎ ((t : Text) × (c ≡ value t)))
Cell-cases null = inl refl
Cell-cases unchanged = inr (inl refl)
Cell-cases (value t) = inr (inr (t, refl))

pub is_live_lem :
    (msg : DecodeMessage) (columns : List Column) (key : List Text) (i : ℕ)
    → Describes msg columns key
    → is_live msg i ≡ some (is_live_column (get_or columns i dropped))
is_live_lem msg columns key i d = rw (d.names i) (elim (Column-cases (get_or columns i dropped)) [
  | inl e ↦ rw e refl
  | inr (name, type_name, e) ↦ rw e refl
])

-- The texts are found where the row's cells are.
abbrev pub CellAt : List Cell → ℕ → Type 0
CellAt cells i =
    (get_or (map cell_isnull cells) i true ≡ cell_isnull (get_or cells i null))
    × (get_or (map cell_changed cells) i true ≡ cell_changed (get_or cells i null))
    × (get_or (map cell_text cells) i none ≡ cell_text (get_or cells i null))

pub CellAt_lem : (cells : List Cell) (i : ℕ) → CellAt cells i
CellAt_lem cells i = (
  get_or-map cell_isnull cells i null,
  get_or-map cell_changed cells i null,
  get_or-map cell_text cells i null,
)

-- The columns of a WHERE: those of the key, and all that are live where there is no key.
abbrev pub in_where : List Text → Column → Bool
in_where key dropped = false
in_where [] (live name type_name) = true
in_where (k ∷ key) (live name type_name) = mem name (k ∷ key)

-- The columns of a SET: those that the key does not name.
abbrev pub in_set : List Text → Column → Bool
in_set key dropped = false
in_set [] (live name type_name) = true
in_set (k ∷ key) (live name type_name) = not (mem name (k ∷ key))

zero_below_suc : (n : ℕ) → ltb 0 (suc n) ≡ true
zero_below_suc n = ground arith

is_key_column_lem :
    (msg : DecodeMessage) (columns : List Column) (key : List Text) (name : Text)
    → Describes msg columns key
    → is_key_column msg (some name) ≡ some (mem name key)
unfolding is_key_column
is_key_column_lem msg columns key name d =
    rw (d.key_count, rounds_small (length key) d.key_bound)
      (key_loop-mem msg name [] key d.key_names)

names_key :
    (msg : DecodeMessage) (columns : List Column) (key : List Text)
    → Describes msg columns key
    → ltb 0 (rounds msg.k_natt) ≡ ltb 0 (length key)
names_key msg columns key d =
    ap (λ n. ltb 0 (rounds n)) d.key_count
    ∙ ap (λ n. ltb 0 n) (rounds_small (length key) d.key_bound)

pub is_where_column_lem :
    (msg : DecodeMessage) (columns : List Column) (key : List Text) (i : ℕ)
    → Describes msg columns key
    → is_where_column msg i ≡ some (in_where key (get_or columns i dropped))
unfolding is_where_column
is_where_column_lem msg columns [] i d =
    rw (d.names i, d.key_count)
      (elim (Column-cases (get_or columns i dropped)) [
        | inl e ↦ rw e refl
        | inr (name, type_name, e) ↦ rw e refl
      ])
is_where_column_lem msg columns (k ∷ key) i d =
    rw (d.names i, names_key msg columns (k ∷ key) d)
      (elim (Column-cases (get_or columns i dropped)) [
        | inl e ↦ rw e refl
        | inr (name, type_name, e) ↦
            rw (e, zero_below_suc (length key)) (is_key_column_lem msg columns (k ∷ key) name d)
      ])

pub is_set_column_lem :
    (msg : DecodeMessage) (columns : List Column) (key : List Text) (i : ℕ)
    → Describes msg columns key
    → is_set_column msg i ≡ some (in_set key (get_or columns i dropped))
unfolding is_set_column
is_set_column_lem msg columns [] i d =
    rw (d.names i, d.key_count)
      (elim (Column-cases (get_or columns i dropped)) [
        | inl e ↦ rw e refl
        | inr (name, type_name, e) ↦ rw e refl
      ])
is_set_column_lem msg columns (k ∷ key) i d =
    rw (d.names i, names_key msg columns (k ∷ key) d)
      (elim (Column-cases (get_or columns i dropped)) [
        | inl e ↦ rw e refl
        | inr (name, type_name, e) ↦
            rw (e, zero_below_suc (length key))
              (rw (is_key_column_lem msg columns (k ∷ key) name d, ◌>>=◌) refl)
      ])

module _ (esc : Escapes) where
  -- The value of a cell in the list of an insert.
  abbrev pub insert_text : Column → Cell → Option Text
  insert_text column null = some (codes "null")
  insert_text column unchanged = some (codes "null")
  insert_text column (value t) = quote_literal_local esc (some t) (column_type column)

  pub insert_value_lem :
      (msg : DecodeMessage) (columns : List Column) (key : List Text) (cells : List Cell) (i : ℕ)
      → Describes msg columns key
      → insert_value esc msg (tuple_of cells) i
        ≡ insert_text (get_or columns i dropped) (get_or cells i null)
  unfolding insert_value
  insert_value_lem msg columns key cells i d =
      rw (d.types i, (CellAt_lem cells i).0, (CellAt_lem cells i).1, (CellAt_lem cells i).2)
        (elim (Cell-cases (get_or cells i null)) [
          | inl e ↦ rw e refl
          | inr (inl e) ↦ rw e refl
          | inr (inr (t, e)) ↦ rw e refl
        ])

  -- An assignment or a condition.
  abbrev pub equation_text : Column → Cell → Option Text
  equation_text dropped cell = none
  equation_text (live name type_name) null = some (name ++ codes "=null")
  equation_text (live name type_name) unchanged = none
  equation_text (live name type_name) (value t) =
      some (name ++ (codes "=" ++ typed_literal esc t type_name))

  pub append_values_lem :
      (msg : DecodeMessage) (columns : List Column) (key : List Text) (cells : List Cell) (i : ℕ)
      → Describes msg columns key
      → append_values esc msg (tuple_of cells) i
        ≡ equation_text (get_or columns i dropped) (get_or cells i null)
  unfolding append_values
  append_values_lem msg columns key cells i d =
      rw
        (
          d.names i,
          d.types i,
          (CellAt_lem cells i).0,
          (CellAt_lem cells i).1,
          (CellAt_lem cells i).2,
        )
        (elim (Column-cases (get_or columns i dropped)) [
          | inl h ↦ rw h refl
          | inr (name, type_name, h) ↦ rw h (elim (Cell-cases (get_or cells i null)) [
            | inl e ↦ rw e refl
            | inr (inl e) ↦ rw e refl
            | inr (inr (t, e)) ↦ rw e refl
          ])
        ])
