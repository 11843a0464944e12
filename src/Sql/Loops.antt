-- ===== src/Sql/Loops.antt =====
-- The loops of dbsync/utils.c over the columns of a message that stands for a row message: each
-- runs through the columns and the cells of the row side by side.
use rds_dbsync.Base.{
  ℕ, zero, suc, ◌≡◌, refl, Bool, true, false, Option, none, some, List, [], ◌∷◌, ◌++◌, map, Text,
  length, get_or, if◌then◌else◌, ◌>>=◌, map_option, Option-cases, inl, inr, fun_ext, arith, ◌+◌,
  ◌<◌, Bool-cases, ◌&&◌,
}
use rds_dbsync.Wire.{Cell, null}
use rds_dbsync.Sql.{join_loop}

-- The texts with `sep` before each, but not before the first of all.
pub join : Text → Bool → List Text → Text
join sep first [] = []
join sep first (t ∷ ts) = (if first then [] else sep) ++ (t ++ join sep false ts)

abbrev prepend : Option Text → Option (List Text) → Option (List Text)
prepend o ts = o >>= λ text. ts >>= λ more. some (text ∷ more)

-- The texts of the columns that are kept, if each of them has one.
pub gather : ℕ → ℕ → (ℕ → Option Bool) → (ℕ → Option Text) → Option (List Text)
gather zero i keep emit = some []
gather (suc n) i keep emit =
    let rest = gather n (suc i) keep emit in
    keep i >>= λ kept. if kept then prepend (emit i) rest else rest

gather-suc :
    (keep : ℕ → Option Bool) (emit : ℕ → Option Text) (n i : ℕ)
    → gather n (suc i) keep emit ≡ gather n i (λ j. keep (suc j)) (λ j. emit (suc j))
unfolding gather
gather-suc keep emit zero i = refl
gather-suc keep emit (suc n) i = rw (gather-suc keep emit n (suc i)) refl

-- Only the columns that the loop reaches matter.
gather-ext :
    (keep keep' : ℕ → Option Bool) (emit : ℕ → Option Text) (n i : ℕ)
    → ((j : ℕ) → j < i + n → keep j ≡ keep' j)
    → gather n i keep emit ≡ gather n i keep' emit
unfolding gather
gather-ext keep keep' emit zero i h = refl
gather-ext keep keep' emit (suc n) i h =
    rw (h i (omega arith), gather-ext keep keep' emit n (suc i) (λ j k. h j (omega arith))) refl

prepend-join :
    (sep : Text) (first : Bool) (o : Option Text) (ts : Option (List Text))
    → (o >>= λ text. map_option (join sep false) ts >>= λ more.
        some ((if first then [] else sep) ++ (text ++ more)))
      ≡ map_option (join sep first) (prepend o ts)
unfolding join
prepend-join sep first none ts = refl
prepend-join sep first (some text) none = refl
prepend-join sep first (some text) (some ts) = refl

-- A loop with separators joins the texts of the kept columns.
pub join_loop-gather :
    (sep : Text) (keep : ℕ → Option Bool) (emit : ℕ → Option Text) (n i : ℕ) (first : Bool)
    → join_loop sep keep emit n i first ≡ map_option (join sep first) (gather n i keep emit)
unfolding join_loop gather join
join_loop-gather sep keep emit zero i first = refl
join_loop-gather sep keep emit (suc n) i first =
    rw
      (
        join_loop-gather sep keep emit n (suc i) first,
        join_loop-gather sep keep emit n (suc i) false,
      )
      (elim (Option-cases (keep i)) [
        | inl e ↦ rw e refl
        | inr (kept, e) ↦ rw (e, ◌>>=◌) (kept_or_skipped kept)
      ])
  where
    kept_or_skipped :
        (kept : Bool)
        → (if kept
            then (emit i >>= λ text.
                map_option (join sep false) (gather n (suc i) keep emit) >>= λ more.
                some ((if first then [] else sep) ++ (text ++ more)))
            else map_option (join sep first) (gather n (suc i) keep emit))
          ≡ map_option (join sep first) (
              if kept
              then prepend (emit i) (gather n (suc i) keep emit)
              else gather n (suc i) keep emit)
    kept_or_skipped true = prepend-join sep first (emit i) (gather n (suc i) keep emit)
    kept_or_skipped false = refl

prepend_known :
    (k r : Bool) (t : Text) (ts : List Text)
    → prepend (if k then some t else none) (if r then some ts else none)
      ≡ (if k && r then some (t ∷ ts) else none)
prepend_known true true t ts = refl
prepend_known true false t ts = refl
prepend_known false r t ts = refl

-- A column is what a loop knows of it beside the cell.
module _ {ℓ} {X : Type ℓ} where
  -- The texts of the columns of a row that are kept, each from the column and its cell.
  pub texts : (X → Bool) → (X → Cell → Option Text) → List X → List Cell → Option (List Text)
  texts keep emit [] cells = some []
  texts keep emit (column ∷ columns) [] = some []
  texts keep emit (column ∷ columns) (cell ∷ cells) =
      let rest = texts keep emit columns cells in
      if keep column then prepend (emit column cell) rest else rest

  gather-texts :
      (d : X) (keep : X → Bool) (emit : X → Cell → Option Text) (columns : List X)
      (cells : List Cell)
      → length cells ≡ length columns
      → gather
          (length cells)
          0
          (λ i. some (keep (get_or columns i d)))
          (λ i. emit (get_or columns i d) (get_or cells i null))
        ≡ texts keep emit columns cells
  unfolding gather texts
  gather-texts d keep emit [] [] h = refl
  gather-texts d keep emit [] (cell ∷ cells) h = ground (arith, h)
  gather-texts d keep emit (column ∷ columns) [] h = refl
  gather-texts d keep emit (column ∷ columns) (cell ∷ cells) h =
      rw
        (
          gather-suc (λ i. some (keep (get_or (column ∷ columns) i d)))
              (λ i. emit (get_or (column ∷ columns) i d) (get_or (cell ∷ cells) i null))
              (length cells) 0,
          gather-texts d keep emit columns cells (omega arith),
        )
        refl

  -- A loop over the columns of a row, where what it does at an index depends on the column and the
  -- cell that stand there.
  pub join_loop-texts :
      (d : X) (sep : Text) (keep : X → Bool) (emit : X → Cell → Option Text) (columns : List X)
      (cells : List Cell) (keep_at : ℕ → Option Bool) (emit_at : ℕ → Option Text)
      → length cells ≡ length columns
      → ((i : ℕ) → i < length cells → keep_at i ≡ some (keep (get_or columns i d)))
      → ((i : ℕ) → emit_at i ≡ emit (get_or columns i d) (get_or cells i null))
      → join_loop sep keep_at emit_at (length cells) 0 true
        ≡ map_option (join sep true) (texts keep emit columns cells)
  join_loop-texts d sep keep emit columns cells keep_at emit_at h hk he = rw (fun_ext he) (
      rw
        (join_loop-gather sep keep_at (λ i. emit (get_or columns i d) (get_or cells i null))
          (length cells) 0 true)
        (rw
          (gather-ext keep_at (λ i. some (keep (get_or columns i d)))
            (λ i. emit (get_or columns i d) (get_or cells i null)) (length cells) 0
            (λ j k. hk j (omega arith)))
          (rw (gather-texts d keep emit columns cells h) refl)))

  -- The texts of the kept columns, where each of them has one.
  unfoldable pub kept : (X → Bool) → (X → Cell → Text) → List X → List Cell → List Text
  kept keep text [] cells = []
  kept keep text (column ∷ columns) [] = []
  kept keep text (column ∷ columns) (cell ∷ cells) =
      let rest = kept keep text columns cells in
      if keep column then text column cell ∷ rest else rest

  -- No kept column has a cell that `known` refuses.
  unfoldable pub all_known : (X → Bool) → (Cell → Bool) → List X → List Cell → Bool
  all_known keep known [] cells = true
  all_known keep known (column ∷ columns) [] = true
  all_known keep known (column ∷ columns) (cell ∷ cells) =
      let rest = all_known keep known columns cells in
      if keep column then (known cell && rest) else rest

  pub texts-kept :
      (keep : X → Bool) (known : Cell → Bool) (emit : X → Cell → Option Text)
      (text : X → Cell → Text) (columns : List X) (cells : List Cell)
      → ((column : X) (cell : Cell)
          → keep column ≡ true
          → emit column cell ≡ (if known cell then some (text column cell) else none))
      → texts keep emit columns cells
        ≡ (if all_known keep known columns cells then some (kept keep text columns cells) else none)
  unfolding texts kept all_known
  texts-kept keep known emit text [] cells h = refl
  texts-kept keep known emit text (column ∷ columns) [] h = refl
  texts-kept keep known emit text (column ∷ columns) (cell ∷ cells) h =
      elim (Bool-cases (keep column)) [
        | inl yes_ ↦
            rw (yes_, h column cell yes_, texts-kept keep known emit text columns cells h)
              (prepend_known (known cell) (all_known keep known columns cells) (text column cell)
                (kept keep text columns cells))
        | inr no_ ↦ rw (no_) (texts-kept keep known emit text columns cells h)
      ]

-- An array of images, at any index.
pub get_or-map {ℓ κ} :
    {A : Type ℓ} {B : Type κ} (f : A → B) (xs : List A) (i : ℕ) (d : A)
    → get_or (map f xs) i (f d) ≡ f (get_or xs i d)
get_or-map f [] i d = refl
get_or-map f (x ∷ xs) zero d = refl
get_or-map f (x ∷ xs) (suc i) d = get_or-map f xs i d
