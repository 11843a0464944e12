-- ===== src/Base/Options.antt =====
-- Laws of chains of fallible steps.
use mathlib.Core.Path.{◌≡◌, refl}
use mathlib.Core.Logic.{◌⊎◌, inl, inr}
use mathlib.Core.Option.{Option, none, some}
use mathlib.Core.Bool.{Bool, true, false}
use rds_dbsync.Base.Tests.{◌>>=◌, if◌then◌else◌}

-- Applied to what succeeds.
abbrev pub map_option {ℓ κ} : {A : Type ℓ} {B : Type κ} → (A → B) → Option A → Option B
map_option f none = none
map_option f (some a) = some (f a)

pub Option-cases {ℓ} : {A : Type ℓ} (o : Option A) → (o ≡ none) ⊎ ((a : A) × (o ≡ some a))
Option-cases none = inl refl
Option-cases (some a) = inr (a, refl)

module _ {ℓ κ} {A : Type ℓ} {B : Type κ} where
  pub bind_ext : (o : Option A) (f g : A → Option B) → ((a : A) → f a ≡ g a) → (o >>= f) ≡ (o >>= g)
  bind_ext none f g h = refl
  bind_ext (some a) f g h = h a

  pub map_option_bind {μ} :
      {C : Type μ} (o : Option A) (f : A → Option B) (g : B → C)
      → map_option g (o >>= f) ≡ (o >>= λ a. map_option g (f a))
  map_option_bind none f g = refl
  map_option_bind (some a) f g = refl

  pub bind_map_option {μ} :
      {C : Type μ} (o : Option A) (f : A → B) (g : B → Option C)
      → (map_option f o >>= g) ≡ (o >>= λ a. g (f a))
  bind_map_option none f g = refl
  bind_map_option (some a) f g = refl

  pub map_map_option {μ} :
      {C : Type μ} (o : Option A) (f : A → B) (g : B → C)
      → map_option g (map_option f o) ≡ map_option (λ a. g (f a)) o
  map_map_option none f g = refl
  map_map_option (some a) f g = refl

  pub map_option_ext :
      (o : Option A) (f g : A → B) → ((a : A) → f a ≡ g a) → map_option f o ≡ map_option g o
  map_option_ext none f g h = refl
  map_option_ext (some a) f g h = λ i. some (h a i)

  pub bind_bind {μ} :
      {C : Type μ} (o : Option A) (f : A → Option B) (g : B → Option C)
      → ((o >>= f) >>= g) ≡ (o >>= λ a. f a >>= g)
  bind_bind none f g = refl
  bind_bind (some a) f g = refl

  pub bind_inv :
      (o : Option A) (f : A → Option B) (b : B)
      → (o >>= f) ≡ some b
      → (a : A) × (o ≡ some a) × (f a ≡ some b)
  bind_inv none f b h = cc
  bind_inv (some a) f b h = (a, refl, h)

pub guard_inv {ℓ} :
    {A : Type ℓ} (c : Bool) (a b : A) → (if c then some a else none) ≡ some b → (c ≡ true) × (a ≡ b)
guard_inv true a b h = (refl, cc)
guard_inv false a b h = cc
