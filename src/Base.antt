-- ===== src/Base.antt =====
-- Names that the modules share: the libraries', passed on, Boolean tests on numbers and texts, and
-- the result of code that may throw.
mod Lists
mod Options
pub use Lists.*
pub use Options.*
pub use Prim.Native.Nat.{ℕ, zero, suc, ◌+◌, ◌-◌, ◌*◌, ◌/◌, ◌%◌, ◌≤◌, ◌<◌, min}
pub use Prim.Native.String.{String}
pub use mathlib.Core.Path.{◌≡◌, refl, sym, ap, ◌∙◌, subst}
pub use mathlib.Core.Logic.{◌≢◌, ◌↔◌, ◌⊎◌, inl, inr}
pub use mathlib.Core.Bool.{Bool, true, false, not, ◌&&◌, ◌||◌}
pub use mathlib.Core.Option.{Option, none, some}
pub use mathlib.Core.List.{List, [], ◌∷◌, ◌++◌, map, reverse}
pub use native.Mathlib.Omega.{arith}
pub use text.Mathlib.TextEquality.{eq_iff}
use Prim.Native.Nat.{compare, Ordering}
use Prim.Native.String
use text.Mathlib.Text.{◌==◌ as text_eq}

abbrev pub ltb : ℕ → ℕ → Bool
ltb a b = elim (compare a b) [ Ordering.lt ↦ true | _ ↦ false ]

abbrev pub leb : ℕ → ℕ → Bool
leb a b = elim (compare a b) [ Ordering.gt ↦ false | _ ↦ true ]

infix 50 ◌==◌ ◌===◌
abbrev pub ◌==◌ : ℕ → ℕ → Bool
a == b = elim (compare a b) [ Ordering.eq ↦ true | _ ↦ false ]

-- `===` on texts.
abbrev pub ◌===◌ : String → String → Bool
s === t = text_eq s t

-- Texts written one after the other.
infixl 65 ◌+++◌
abbrev pub ◌+++◌ : String → String → String
s +++ t = String.◌++◌ s t

-- A text is falsy exactly when it is empty.
abbrev pub truthy : String → Bool
truthy s = not (s === "")

-- A text that is there and not empty.
abbrev pub filled : Option String → Option String
filled none = none
filled (some t) = elim (truthy t) [ true ↦ some t | false ↦ none ]

infix 1 if◌then◌else◌
abbrev pub if◌then◌else◌ {ℓ} : {A : Type ℓ} → Bool → A → A → A
if true then x else _ = x
if false then _ else y = y

pub Bool-cases : (b : Bool) → (b ≡ true) ⊎ (b ≡ false)
Bool-cases true = inl refl
Bool-cases false = inr refl

pub Option-cases {ℓ} : {A : Type ℓ} (o : Option A) → (o ≡ none) ⊎ ((a : A) × (o ≡ some a))
Option-cases none = inl refl
Option-cases (some a) = inr (a, refl)

-- `xs.includes(s)` on texts.
abbrev pub includes : List String → String → Bool
includes [] s = false
includes (x ∷ xs) s = x === s || includes xs s

pub includes_of_get_elem? :
    (l : List String) (k : ℕ) (s : String) → get_elem? l k ≡ some s → includes l s ≡ true
includes_of_get_elem? [] k s h = cc
includes_of_get_elem? (x ∷ l) zero s h = ground (arith, eq_iff x s)
includes_of_get_elem? (x ∷ l) (suc k) s h = ground (arith, includes_of_get_elem? l k s h)

-- No text stands twice in the list.
abbrev pub Unique : List String → Type 0
Unique [] = Unit
Unique (x ∷ xs) = (includes xs x ≡ false) × Unique xs

-- What a call returns or throws.
pub data Result (E A : Type 0) : Type 0 where
  ok : A → Result E A
  err : E → Result E A

pub Result-cases :
    {E A : Type 0} (r : Result E A) → ((a : A) × (r ≡ ok a)) ⊎ ((e : E) × (r ≡ err e))
Result-cases (ok a) = inl (a, refl)
Result-cases (err e) = inr (e, refl)
