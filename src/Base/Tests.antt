-- ===== src/Base/Tests.antt =====
-- Boolean tests on numbers and texts, the conditional, and case lemmas that keep the equation.
use Prim.Native.Nat.{ℕ, compare, Ordering}
use mathlib.Core.Path.{◌≡◌, refl}
use mathlib.Core.Logic.{ite, ◌⊎◌, inl, inr}
use mathlib.Core.Bool.{Bool, true, false}
use mathlib.Core.Option.{Option, none, some}
use Prim.Native.String.{String}
use text.Mathlib.Text.{◌==◌ as str_eq}
use text.Mathlib.TextEquality.{eq_iff}

abbrev pub ltb : ℕ → ℕ → Bool
ltb a b = elim (compare a b) [ Ordering.lt ↦ true | _ ↦ false ]

abbrev pub leb : ℕ → ℕ → Bool
leb a b = elim (compare a b) [ Ordering.gt ↦ false | _ ↦ true ]

infix 50 ◌==◌
abbrev pub ◌==◌ : ℕ → ℕ → Bool
a == b = elim (compare a b) [ Ordering.eq ↦ true | _ ↦ false ]

infix 1 if◌then◌else◌
abbrev pub if◌then◌else◌ {ℓ} : {A : Type ℓ} → Bool → A → A → A
if true then x else y = x
if false then x else y = y

pub Bool-cases : (b : Bool) → (b ≡ true) ⊎ (b ≡ false)
Bool-cases true = inl refl
Bool-cases false = inr refl

pub Option-cases {ℓ} : {A : Type ℓ} (o : Option A) → (o ≡ none) ⊎ ((a : A) × (o ≡ some a))
Option-cases none = inl refl
Option-cases (some a) = inr (a, refl)

-- texts are compared by `str_eq`, and what holds texts by this
unfoldable pub String_discrete : Discrete String
unfolding Bool-cases
String_discrete a b = elim (Bool-cases (str_eq a b)) [
  | inl same ↦ yes ((eq_iff a b).0 same)
  | inr other ↦ no (λ e. cc (other, (eq_iff a b).1 e))
]

-- A statement about a branch on a computed option, from one about each branch.
pub split_option {ℓ κ ι} :
    {A : Type ℓ} {B : Type κ} (P : B → Type ι) (x : Option A) (a : B) (f : A → B)
    → (x ≡ none → P a)
    → ((y : A) → x ≡ some y → P (f y))
    → P (elim x [ none ↦ a | some y ↦ f y ])
split_option P none a f h k = h refl
split_option P (some y) a f h k = k y refl

pub split_bool {ℓ κ} :
    {B : Type ℓ} (P : B → Type κ) (b : Bool) (x y : B)
    → (b ≡ true → P x)
    → (b ≡ false → P y)
    → P (if b then x else y)
split_bool P true x y h k = h refl
split_bool P false x y h k = k refl

pub split_ite {ℓ κ ι} :
    {Q : Type ℓ} {B : Type κ} (P : B → Type ι) (d : Dec Q) (x y : B)
    → (Q → P x)
    → ((Q → ⊥) → P y)
    → P (ite d x y)
split_ite P (yes q) x y f g = f q
split_ite P (no q) x y f g = g q
