-- ===== src/Base/Tests.antt =====
-- Boolean tests, the conditional, and the decision whether two texts are equal.
use Prim.Native.Nat.{ℕ, compare, Ordering}
use Prim.Native.String.{String}
use mathlib.Core.Path.{◌≡◌, refl}
use mathlib.Core.Logic.{◌↔◌, ◌⊎◌, inl, inr}
use mathlib.Core.Bool.{Bool, true, false}
use mathlib.Core.Option.{Option, none, some}
use text.Mathlib.Text.{◌==◌ as str_eq}
use text.Mathlib.TextEquality.{eq_iff}

abbrev pub ltb : ℕ → ℕ → Bool
ltb a b = elim (compare a b) [ Ordering.lt ↦ true | _ ↦ false ]

abbrev pub leb : ℕ → ℕ → Bool
leb a b = elim (compare a b) [ Ordering.gt ↦ false | _ ↦ true ]

infix 50 ◌==◌
abbrev pub ◌==◌ : ℕ → ℕ → Bool
a == b = elim (compare a b) [ Ordering.eq ↦ true | _ ↦ false ]

infix 1 if◌then◌else◌
abbrev pub if◌then◌else◌ {ℓ} : {A : Type ℓ} → Bool → A → A → A
if true then x else y = x
if false then x else y = y

pub Bool-cases : (b : Bool) → (b ≡ true) ⊎ (b ≡ false)
Bool-cases true = inl refl
Bool-cases false = inr refl

pub Option-cases {ℓ} : {A : Type ℓ} (o : Option A) → (o ≡ none) ⊎ ((a : A) × (o ≡ some a))
Option-cases none = inl refl
Option-cases (some a) = inr (a, refl)

of_test {ℓ} : {A : Type ℓ} (a b : A) (t : Bool) → ((t ≡ true) ↔ (a ≡ b)) → Dec (a ≡ b)
of_test a b true h = yes (h.0 refl)
of_test a b false h = no (λ e. cc (h.1 e))

-- The decision that the maps with textual keys run on.
unfoldable pub String_discrete : Discrete String
unfolding of_test
String_discrete a b = of_test a b (str_eq a b) (eq_iff a b)

pub if_true {ℓ} : {A : Type ℓ} {b : Bool} (x y : A) → b ≡ true → (if b then x else y) ≡ x
if_true x y e = rw e

pub if_false {ℓ} : {A : Type ℓ} {b : Bool} (x y : A) → b ≡ false → (if b then x else y) ≡ y
if_false x y e = rw e

-- What holds of both branches holds of the conditional.
pub either {ℓ} :
    {A : Type ℓ} (P : A → Type 0) (t : Bool) (a b : A) → P a → P b → P (if t then a else b)
either P true a b p q = p
either P false a b p q = q

-- The same, where the branches need to know the test.
pub either_by {ℓ} :
    {A : Type ℓ} (P : A → Type 0) (t : Bool) (a b : A)
    → (t ≡ true → P a)
    → (t ≡ false → P b)
    → P (if t then a else b)
either_by P true a b p q = p refl
either_by P false a b p q = q refl

pub either_option {ℓ κ} :
    {A : Type ℓ} {B : Type κ} (P : B → Type 0) (o : Option A) (n : B) (s : A → B)
    → P n
    → ((a : A) → P (s a))
    → P (elim o [ none ↦ n | some a ↦ s a ])
either_option P none n s p q = p
either_option P (some a) n s p q = q a

pub true-false : true ≡ false → ⊥
true-false h = cc

pub some-none {ℓ} : {A : Type ℓ} (a : A) → some a ≡ none → ⊥
some-none a h = cc
