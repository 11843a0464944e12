-- ===== src/Sql/Places.antt =====
-- The columns that `append_update_statement_full_row` of dbsync/utils.c sets: the live ones whose
-- value changed.
use rds_dbsync.Base.{
  ℕ, zero, suc, ◌≡◌, refl, sym, ap, ◌∙◌, Bool, true, false, not, Option, none, some, List, [], ◌∷◌,
  arith, Text, codes, str_eq, length, get_or, ltb, lt→ltb, if◌then◌else◌, inl, inr,
}
use rds_dbsync.Message.{DecodeMessage, rounds, rounds_small}
use rds_dbsync.Wire.{
  Column, dropped, live, Cell, null, unchanged, value, tuple_of, FitsRow, RowMessage,
}
use rds_dbsync.Quote.{Escapes}
use rds_dbsync.Sql.{is_changed_column, change, droped, join_loop, append_values}
use rds_dbsync.Sql.Loops.{join, join_loop-texts, texts-kept, kept, all_known}
use rds_dbsync.Sql.Cells.{
  Describes, Column-cases, Cell-cases, CellAt_lem, equation_text, append_values_lem,
}
use rds_dbsync.Sql.Equations.{is_known, known_text, equation_text_lem, map_join}

-- The new cell is another value than the old one, as far as both are known.
abbrev pub changed : Cell → Cell → Bool
changed null null = false
changed old null = true
changed old unchanged = false
changed null (value t) = true
changed unchanged (value t) = false
changed (value s) (value t) = not (str_eq t s)

-- A column with its old and its new cell.
abbrev pub Place : Type 0
Place = Column × Cell × Cell

abbrev pub is_changed : Place → Bool
is_changed (dropped, old, new) = false
is_changed (live name type_name, old, new) = changed old new

abbrev pub places : List Column → List Cell → List Cell → List Place
places (column ∷ columns) (old ∷ olds) (new ∷ news) = (column, old, new) ∷ places columns olds news
places _ _ _ = []

get_or-places :
    (columns : List Column) (olds news : List Cell) (i : ℕ)
    → length olds ≡ length columns
    → length news ≡ length columns
    → get_or (places columns olds news) i (dropped, null, null)
      ≡ (get_or columns i dropped, get_or olds i null, get_or news i null)
get_or-places [] [] [] i h k = refl
get_or-places [] (o ∷ olds) news i h k = ground (arith, h)
get_or-places [] [] (n ∷ news) i h k = ground (arith, k)
get_or-places (c ∷ columns) [] news i h k = ground (arith, h)
get_or-places (c ∷ columns) (o ∷ olds) [] i h k = ground (arith, k)
get_or-places (c ∷ columns) (o ∷ olds) (n ∷ news) zero h k = refl
get_or-places (c ∷ columns) (o ∷ olds) (n ∷ news) (suc i) h k =
    get_or-places columns olds news i (omega arith) (omega arith)

abbrev pub with_rows : DecodeMessage → List Cell → List Cell → DecodeMessage
with_rows msg old row = record msg { newtuple = tuple_of row; oldtuple = tuple_of old }

is_changed_column-is_changed :
    (msg : DecodeMessage) (columns : List Column) (key : List Text) (old row : List Cell) (i : ℕ)
    → Describes msg columns key
    → ltb i (rounds (length old)) ≡ true
    → is_changed_column (with_rows msg old row) i
      ≡ some (is_changed (get_or columns i dropped, get_or old i null, get_or row i null))
unfolding change droped
is_changed_column-is_changed msg columns key old row i d reached =
    rw
      (
        reached,
        d.names i,
        (CellAt_lem old i).0,
        (CellAt_lem old i).1,
        (CellAt_lem old i).2,
        (CellAt_lem row i).0,
        (CellAt_lem row i).1,
        (CellAt_lem row i).2,
      )
      (elim (Column-cases (get_or columns i dropped)) [
        | inl c ↦ rw c refl
        | inr (name, type_name, c) ↦ rw c (elim (Cell-cases (get_or row i null)) [
          | inl n ↦ rw n (elim (Cell-cases (get_or old i null)) [
            | inl o ↦ rw o refl
            | inr (inl o) ↦ rw o refl
            | inr (inr (s, o)) ↦ rw o refl
          ])
          | inr (inl n) ↦ rw n refl
          | inr (inr (t, n)) ↦ rw n (elim (Cell-cases (get_or old i null)) [
            | inl o ↦ rw o refl
            | inr (inl o) ↦ rw o refl
            | inr (inr (s, o)) ↦ rw o refl
          ])
        ])
      ])

module _ (esc : Escapes) where
  -- The assignments of the columns that changed.
  abbrev pub set_changed : RowMessage → List Cell → List Cell → Option Text
  set_changed m old row =
      if all_known is_changed is_known (places m.columns old row) row
      then some (
          join (codes " , ") true
            (kept is_changed (λ p. known_text esc p.0) (places m.columns old row) row))
      else none

  changed_text_lem :
      (p : Place) (cell : Cell)
      → is_changed p ≡ true
      → equation_text esc p.0 cell
        ≡ (if is_known cell then some (known_text esc p.0 cell) else none)
  changed_text_lem (dropped, old, new) cell h = cc
  changed_text_lem (live name type_name, old, new) cell h =
      equation_text_lem esc (live name type_name) cell refl

  length-places :
      (columns : List Column) (old row : List Cell)
      → length old ≡ length columns
      → length row ≡ length columns
      → length (places columns old row) ≡ length columns
  length-places [] old row h k = refl
  length-places (c ∷ columns) [] row h k = ground (arith, h)
  length-places (c ∷ columns) (o ∷ old) [] h k = ground (arith, k)
  length-places (c ∷ columns) (o ∷ old) (n ∷ row) h k =
      ap suc (length-places columns old row (omega arith) (omega arith))

  pub set_changed_lem :
      (msg : DecodeMessage) (m : RowMessage) (key : List Text) (old row : List Cell)
      → Describes msg m.columns key
      → FitsRow old
      → FitsRow row
      → length old ≡ length m.columns
      → length row ≡ length m.columns
      → join_loop
          (codes " , ")
          (is_changed_column (with_rows msg old row))
          (append_values esc msg (tuple_of row))
          (rounds (length row))
          0
          true
        ≡ set_changed m old row
  set_changed_lem msg m key old row d fo fr ho hr =
      let columns : List Column = m.columns in
      let at : (i : ℕ)
          → get_or (places columns old row) i (dropped, null, null)
            ≡ (get_or columns i dropped, get_or old i null, get_or row i null) =
        λ i. get_or-places columns old row i ho hr in
      rw (rounds_small (length row) fr.1) (
        rw
          (join_loop-texts (dropped, null, null) (codes " , ") is_changed
            (λ p. equation_text esc p.0) (places columns old row) row
            (is_changed_column (with_rows msg old row)) (append_values esc msg (tuple_of row))
            (hr ∙ sym (length-places columns old row ho hr))
            (λ i k.
              is_changed_column-is_changed msg columns key old row i d (
                ap (λ n. ltb i n) (rounds_small (length old) fo.1)
                ∙ lt→ltb i (length old) (omega arith))
              ∙ ap (λ p. some (is_changed p)) (sym (at i)))
            (λ i.
              append_values_lem esc msg columns key row i d
              ∙ ap (λ p. equation_text esc p.0 (get_or row i null)) (sym (at i))))
          (rw
            (texts-kept is_changed is_known (λ p. equation_text esc p.0) (λ p. known_text esc p.0)
              (places columns old row) row changed_text_lem)
            (map_join esc (codes " , ") (all_known is_changed is_known (places columns old row) row)
              (kept is_changed (λ p. known_text esc p.0) (places columns old row) row))))
