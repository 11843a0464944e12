-- ===== src/Replication/Connect/Filled.antt =====
-- What stands in the arrays that `GetConnection` (dbsync/utils.c) gives to the library.
use rds_dbsync.Base.{
  ℕ, suc, ◌+◌, ◌<◌, ◌≡◌, ◌∙◌, refl, ap, sym, Option, none, some, List, [], ◌∷◌, ◌++◌, map,
  append_assoc, append-nil, arith, Text, codes, length, length-append, length-snoc, length-map,
  lt→ltb, ◌>>=◌, array, store, store-array, store-array-map, array-snoc_default,
}
use rds_dbsync.Replication.Connect.{ConnOption, argcount, Params, put, add, add_options, params_of}

-- The options that are set, with their values, and the fixed ones behind them.
abbrev pub Pair : Type 0
Pair = Text × Text

abbrev pub pair_if : Text → Option Text → List Pair → List Pair
pair_if keyword none pairs = pairs
pair_if keyword (some []) pairs = pairs
pair_if keyword (some (c ∷ cs)) pairs = (keyword, c ∷ cs) ∷ pairs

unfoldable pub set_pairs : List ConnOption → List Pair
set_pairs [] = []
set_pairs ((keyword, val) ∷ opts) = pair_if keyword val (set_pairs opts)

abbrev pub fixed_pairs : List Pair
fixed_pairs =
    (codes "replication", codes "database")
    ∷ ((codes "fallback_application_name", codes "ali_logicaldecode") ∷ [])

abbrev pub keyword_of : Pair → Option Text
keyword_of (keyword, value) = some keyword

abbrev pub value_of : Pair → Option Text
value_of (keyword, value) = some value

-- The arrays that hold these pairs, with NULL in the other cells.
abbrev pub filled : ℕ → List Pair → Params
filled size pairs = record {
  size = size;
  keywords = array none (map keyword_of pairs);
  values = array none (map value_of pairs);
  i = length pairs;
}

add-filled :
    (size : ℕ) (pairs : List Pair) (keyword value : Text)
    → length pairs < size
    → add keyword (some value) (filled size pairs)
      ≡ some (filled size (pairs ++ (keyword, value) ∷ []))
unfolding put
add-filled size pairs keyword value h =
    rw
      (
        lt→ltb (length pairs) size h,
        store-array-map keyword_of none pairs (keyword, value),
        store-array-map value_of none pairs (keyword, value),
        length-snoc pairs (keyword, value),
      )
      refl

add_options-filled :
    (opts : List ConnOption) (size : ℕ) (pairs : List Pair)
    → length pairs + length (set_pairs opts) < size
    → add_options opts (filled size pairs) ≡ some (filled size (pairs ++ set_pairs opts))
unfolding add_options set_pairs
add_options-filled [] size pairs h = rw append-nil refl
add_options-filled ((keyword, none) ∷ opts) size pairs h = add_options-filled opts size pairs h
add_options-filled ((keyword, some []) ∷ opts) size pairs h = add_options-filled opts size pairs h
add_options-filled ((keyword, some (c ∷ cs)) ∷ opts) size pairs h =
    rw (add-filled size pairs keyword (c ∷ cs) (omega arith)) (
      add_options-filled opts size (pairs ++ (keyword, c ∷ cs) ∷ [])
        (omega (arith, length-snoc pairs (keyword, c ∷ cs)))
      ∙ ap (λ ps. some (filled size ps))
          (append_assoc pairs ((keyword, c ∷ cs) ∷ []) (set_pairs opts)))

argcount-set_pairs : (opts : List ConnOption) → argcount opts ≡ 7 + length (set_pairs opts)
unfolding argcount set_pairs
argcount-set_pairs [] = refl
argcount-set_pairs ((keyword, none) ∷ opts) = argcount-set_pairs opts
argcount-set_pairs ((keyword, some []) ∷ opts) = argcount-set_pairs opts
argcount-set_pairs ((keyword, some (c ∷ cs)) ∷ opts) = omega (arith, argcount-set_pairs opts)

-- NULL behind what is filled.
null_behind :
    (f : Pair → Option Text) (pairs : List Pair)
    → store (array none (map f pairs)) (length pairs) none ≡ array none (map f pairs)
null_behind f pairs =
    ap (λ n. store (array none (map f pairs)) n none) (sym (length-map f pairs))
    ∙ store-array none none (map f pairs)
    ∙ sym (array-snoc_default none (map f pairs))

put-filled :
    (size : ℕ) (pairs : List Pair)
    → length pairs < size
    → put none none (filled size pairs) ≡ some (filled size pairs)
unfolding put
put-filled size pairs h =
    rw (lt→ltb (length pairs) size h, null_behind keyword_of pairs, null_behind value_of pairs) refl

abbrev replication_pair : Pair
replication_pair = (codes "replication", codes "database")

abbrev name_pair : Pair
name_pair = (codes "fallback_application_name", codes "ali_logicaldecode")

-- No write leaves the arrays, whatever the string has: they hold the options that are set, in their
-- order, then the two fixed ones, and NULL behind them, in cells that the arrays have.
pub params_of-filled :
    (opts : List ConnOption)
    → (params_of opts ≡ some (filled (suc (argcount opts)) (set_pairs opts ++ fixed_pairs)))
      × (length (set_pairs opts ++ fixed_pairs) < suc (argcount opts))
unfolding params_of
params_of-filled opts =
    let pairs = set_pairs opts in
    let size = suc (argcount opts) in
    let one = pairs ++ replication_pair ∷ [] in
    let count = argcount-set_pairs opts in
    let size_one = length-snoc pairs replication_pair in
    let size_two = length-snoc one name_pair in
    let both : (pairs ++ replication_pair ∷ []) ++ name_pair ∷ [] ≡ pairs ++ fixed_pairs =
      append_assoc pairs (replication_pair ∷ []) (name_pair ∷ []) in
    (
      rw (add_options-filled opts size [] (omega arith), ◌>>=◌)
          (rw (add-filled size pairs (codes "replication") (codes "database") (omega arith)) (
            rw
              (add-filled size one (codes "fallback_application_name") (codes "ali_logicaldecode")
                (omega arith))
              (put-filled size (one ++ name_pair ∷ []) (omega arith)
                ∙ ap (λ ps. some (filled size ps)) both))),
      omega (arith, length-append pairs fixed_pairs),
    )
