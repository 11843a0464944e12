-- ===== src/Base/Lists.antt =====
-- Lists measured and indexed by native numbers, and arrays as functions of the index.
use Prim.Native.Nat.{ℕ, zero, suc, ◌+◌}
use mathlib.Core.Path.{◌≡◌, refl, ap, fun_ext}
use mathlib.Core.List.{List, [], ◌∷◌, ◌++◌, map}
use native.Mathlib.Omega.{arith}
use rds_dbsync.Base.Tests.{◌==◌, if◌then◌else◌}

module _ {ℓ} {A : Type ℓ} where
  abbrev pub length : List A → ℕ
  length [] = 0
  length (x ∷ xs) = suc (length xs)

  pub length-append : (xs ys : List A) → length (xs ++ ys) ≡ length xs + length ys
  length-append [] ys = omega arith
  length-append (x ∷ xs) ys = omega (arith, length-append xs ys)

  abbrev pub get_or : List A → ℕ → A → A
  get_or [] i d = d
  get_or (x ∷ xs) zero d = x
  get_or (x ∷ xs) (suc i) d = get_or xs i d

  abbrev pub take : ℕ → List A → List A
  take zero xs = []
  take (suc n) [] = []
  take (suc n) (x ∷ xs) = x ∷ take n xs

  abbrev pub drop : ℕ → List A → List A
  drop zero xs = xs
  drop (suc n) [] = []
  drop (suc n) (x ∷ xs) = drop n xs

  -- The cells of an array whose first cells are the list and whose other cells hold `d`.
  abbrev pub array : A → List A → ℕ → A
  array d xs = λ i. get_or xs i d

  -- `a[i] = v`.
  abbrev pub store : (ℕ → A) → ℕ → A → ℕ → A
  store f i v = λ j. if j == i then v else f j

  get_or-snoc :
      (d v : A) (xs : List A) (j : ℕ)
      → (if j == length xs then v else get_or xs j d) ≡ get_or (xs ++ v ∷ []) j d
  get_or-snoc d v [] zero = refl
  get_or-snoc d v [] (suc j) = ground arith
  get_or-snoc d v (x ∷ xs) zero = ground arith
  get_or-snoc d v (x ∷ xs) (suc j) = ground (arith, get_or-snoc d v xs j)

  pub store-array :
      (d v : A) (xs : List A) → store (array d xs) (length xs) v ≡ array d (xs ++ v ∷ [])
  store-array d v xs = fun_ext (λ j. get_or-snoc d v xs j)

  get_or-snoc_default : (d : A) (xs : List A) (j : ℕ) → get_or xs j d ≡ get_or (xs ++ d ∷ []) j d
  get_or-snoc_default d [] zero = refl
  get_or-snoc_default d [] (suc j) = refl
  get_or-snoc_default d (x ∷ xs) zero = refl
  get_or-snoc_default d (x ∷ xs) (suc j) = get_or-snoc_default d xs j

  -- A cell that still holds the default may be counted as written.
  pub array-snoc_default : (d : A) (xs : List A) → array d xs ≡ array d (xs ++ d ∷ [])
  array-snoc_default d xs = fun_ext (λ j. get_or-snoc_default d xs j)

  abbrev pub All {κ} : (A → Type κ) → List A → Type κ
  All P [] = Unit {κ}
  All P (x ∷ xs) = P x × All P xs

  pub length-snoc : (xs : List A) (x : A) → length (xs ++ x ∷ []) ≡ suc (length xs)
  length-snoc xs x = omega (arith, length-append xs (x ∷ []))

module _ {ℓ κ} {A : Type ℓ} {B : Type κ} (f : A → B) where
  pub length-map : (xs : List A) → length (map f xs) ≡ length xs
  length-map [] = refl
  length-map (x ∷ xs) = ap suc (length-map xs)

  pub map-snoc : (xs : List A) (x : A) → map f (xs ++ x ∷ []) ≡ map f xs ++ f x ∷ []
  map-snoc [] x = refl
  map-snoc (y ∷ xs) x = ap (◌∷◌ (f y)) (map-snoc xs x)

  -- Writing the next cell of an array that holds the images of a list.
  pub store-array-map :
      (d : B) (xs : List A) (x : A)
      → store (array d (map f xs)) (length xs) (f x) ≡ array d (map f (xs ++ x ∷ []))
  store-array-map d xs x = rw (map-snoc xs x, ← length-map xs) (store-array d (f x) (map f xs))

  -- A cell that is not written counts as written with the default.
  pub array-map_default :
      (d : B) (xs : List A) (x : A) → f x ≡ d → array d (map f xs) ≡ array d (map f (xs ++ x ∷ []))
  array-map_default d xs x h = rw (map-snoc xs x, h) (array-snoc_default d (map f xs))
