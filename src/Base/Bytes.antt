-- ===== src/Base/Bytes.antt =====
-- C strings. A string is the list of its bytes; its terminating zero is not among them.
use Prim.Native.Nat.{ℕ, ◌+◌, ◌<◌}
use Prim.Native.Char.{code}
use Prim.Native.String.{String}
use mathlib.Core.Path.{◌≡◌, refl}
use mathlib.Core.Bool.{Bool, true, false, ◌&&◌}
use mathlib.Core.List.{List, [], ◌∷◌, ◌++◌, append_assoc}
use mathlib.Core.Option.{Option, none, some}
use native.Mathlib.Omega.{arith}
use rds_dbsync.Base.Tests.{◌==◌, if◌then◌else◌}
use rds_dbsync.Base.Lists.{length, length-append, All}

abbrev pub Text : Type 0
Text = List ℕ

abbrev pub codes : String → Text
codes String.[] = []
codes (String.◌∷◌ c s) = code c ∷ codes s

-- The string that a pointer to these bytes denotes: what stands before the first zero.
abbrev pub c_string : List ℕ → Text
c_string [] = []
c_string (c ∷ cs) = let rest = c ∷ c_string cs in if c == 0 then [] else rest

-- The bytes of a string in memory.
unfoldable pub c_bytes : Text → List ℕ
c_bytes t = t ++ 0 ∷ []

-- No byte of the string is zero.
abbrev pub IsCString : Text → Type 0
IsCString = All (λ c. 0 < c)

c_string-append : (t rest : List ℕ) → IsCString t → c_string (t ++ (0 ∷ rest)) ≡ t
c_string-append [] rest h = refl
c_string-append (c ∷ cs) rest h = ground (arith, c_string-append cs rest h.1)

pub c_string-c_bytes : (t rest : List ℕ) → IsCString t → c_string (c_bytes t ++ rest) ≡ t
unfolding c_bytes
c_string-c_bytes t rest h = rw append_assoc (c_string-append t rest h)

pub length-c_bytes : (t : Text) → length (c_bytes t) ≡ length t + 1
unfolding c_bytes
length-c_bytes t = omega (arith, length-append t (0 ∷ []))

-- A pointer as the string that stands there; `none` is NULL.
abbrev pub as_text : Option (List ℕ) → Option Text
as_text none = none
as_text (some p) = some (c_string p)

-- `strcmp(a, b) == 0`.
unfoldable pub str_eq : Text → Text → Bool
str_eq [] [] = true
str_eq (a ∷ as') (b ∷ bs) = a == b && str_eq as' bs
str_eq _ _ = false

pub str_eq_sound : (a b : Text) → str_eq a b ≡ true → a ≡ b
unfolding str_eq
str_eq_sound [] [] h = refl
str_eq_sound [] (b ∷ bs) h = cc
str_eq_sound (a ∷ as') [] h = cc
str_eq_sound (a ∷ as') (b ∷ bs) h = ground (arith, str_eq_sound as' bs)

pub str_eq_refl : (a : Text) → str_eq a a ≡ true
unfolding str_eq
str_eq_refl [] = refl
str_eq_refl (a ∷ as') = ground (arith, str_eq_refl as')
