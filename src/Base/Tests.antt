-- ===== src/Base/Tests.antt =====
-- Boolean tests on numbers and on types with decidable equality, the conditional, and text.
use Prim.Native.Char.{code}
use Prim.Native.Nat.{ℕ, compare, Ordering}
use Prim.Native.String.{String}
use mathlib.Core.Path.{◌≡◌, refl}
use mathlib.Core.Logic.{◌⊎◌, inl, inr}
use mathlib.Core.Bool.{Bool, true, false, not}
use mathlib.Core.List.{List, [], ◌∷◌}
use mathlib.Core.Option.{Option, none, some}
use native.Mathlib.Omega.{arith}
use native.Mathlib.Decide.{ℕ_discrete}

abbrev pub ltb : ℕ → ℕ → Bool
ltb a b = elim (compare a b) [ Ordering.lt ↦ true | _ ↦ false ]

abbrev pub leb : ℕ → ℕ → Bool
leb a b = elim (compare a b) [ Ordering.gt ↦ false | _ ↦ true ]

infix 1 if◌then◌else◌
abbrev pub if◌then◌else◌ {ℓ} : {A : Type ℓ} → Bool → A → A → A
if true then x else y = x
if false then x else y = y

-- A Rust type that derives `Eq`.
pub record DecEq {ℓ} (A : Type ℓ) : Type ℓ where
  pub dec_eq : Discrete A

infix 50 ◌==◌ ◌!=◌
abbrev pub ◌==◌ {ℓ} : {A : Type ℓ} ⦃e : DecEq A⦄ → A → A → Bool
◌==◌ ⦃e⦄ a b = elim (e.dec_eq a b) [ yes _ ↦ true | no _ ↦ false ]

abbrev pub ◌!=◌ {ℓ} : {A : Type ℓ} ⦃e : DecEq A⦄ → A → A → Bool
a != b = not (a == b)

-- A Rust string is the list of its characters' code points.
abbrev pub Text : Type 0
Text = List ℕ

abbrev pub codes : String → Text
codes String.[] = []
codes (String.◌∷◌ c s) = code c ∷ codes s

unfoldable pub Bool-discrete : Discrete Bool
Bool-discrete = hlevel

unfoldable pub List-discrete {ℓ} : {A : Type ℓ} → Discrete A → Discrete (List A)
List-discrete d = hlevel d

unfoldable pub Option-discrete {ℓ} : {A : Type ℓ} → Discrete A → Discrete (Option A)
Option-discrete d = hlevel d

instance abbrev pub ℕ-DecEq : DecEq ℕ
ℕ-DecEq = record { dec_eq = ℕ_discrete }

instance abbrev pub Bool-DecEq : DecEq Bool
Bool-DecEq = record { dec_eq = Bool-discrete }

instance abbrev pub List-DecEq {ℓ} : {A : Type ℓ} ⦃e : DecEq A⦄ → DecEq (List A)
List-DecEq ⦃e⦄ = record { dec_eq = List-discrete e.dec_eq }

instance abbrev pub Option-DecEq {ℓ} : {A : Type ℓ} ⦃e : DecEq A⦄ → DecEq (Option A)
Option-DecEq ⦃e⦄ = record { dec_eq = Option-discrete e.dec_eq }

pub ==→≡ {ℓ} : {A : Type ℓ} ⦃e : DecEq A⦄ (a b : A) → (a == b) ≡ true → a ≡ b
==→≡ ⦃e⦄ a b h = ground arith

pub ≡→== {ℓ} : {A : Type ℓ} ⦃e : DecEq A⦄ (a b : A) → a ≡ b → (a == b) ≡ true
≡→== ⦃e⦄ a b h = ground arith

pub Bool-cases : (b : Bool) → (b ≡ true) ⊎ (b ≡ false)
Bool-cases true = inl refl
Bool-cases false = inr refl

pub Option-cases {ℓ} : {A : Type ℓ} (o : Option A) → (o ≡ none) ⊎ ((a : A) × (o ≡ some a))
Option-cases none = inl refl
Option-cases (some a) = inr (a, refl)

abbrev pub is_some {ℓ} : {A : Type ℓ} → Option A → Bool
is_some none = false
is_some (some a) = true

-- `Option::or_else`, and a step of `find_map`.
abbrev pub or_else {ℓ} : {A : Type ℓ} → Option A → Option A → Option A
or_else none o = o
or_else (some a) o = some a

abbrev pub map_option {ℓ κ} : {A : Type ℓ} {B : Type κ} → (A → B) → Option A → Option B
map_option f none = none
map_option f (some a) = some (f a)

abbrev pub is_empty {ℓ} : {A : Type ℓ} → List A → Bool
is_empty [] = true
is_empty (x ∷ xs) = false

pub !=→≡ {ℓ} : {A : Type ℓ} ⦃e : DecEq A⦄ (a b : A) → (a != b) ≡ false → a ≡ b
!=→≡ ⦃e⦄ a b h = ground arith

-- `?` on an `Option`.
infixl 40 ◌>>=◌
abbrev pub ◌>>=◌ {ℓ κ} : {A : Type ℓ} {B : Type κ} → Option A → (A → Option B) → Option B
none >>= f = none
some a >>= f = f a
