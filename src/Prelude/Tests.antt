-- ===== src/Prelude/Tests.antt =====
-- Boolean tests on the native numbers, the conditional, and case splits on computed values.
use Prim.Native.Nat.{ℕ, ◌≤◌, compare, Ordering}
use mathlib.Core.Path.{◌≡◌, refl}
use mathlib.Core.Logic.{◌↔◌, ◌⊎◌, inl, inr}
use mathlib.Core.Bool.{Bool, true, false, ◌&&◌, ◌||◌}
use mathlib.Core.Option.{Option, none, some}
use native.Mathlib.Omega.{arith}

abbrev pub ltb : ℕ → ℕ → Bool
ltb a b = elim (compare a b) [ Ordering.lt ↦ true | _ ↦ false ]

abbrev pub leb : ℕ → ℕ → Bool
leb a b = elim (compare a b) [ Ordering.gt ↦ false | _ ↦ true ]

infix 50 ◌==◌
abbrev pub ◌==◌ : ℕ → ℕ → Bool
a == b = elim (compare a b) [ Ordering.eq ↦ true | _ ↦ false ]

infix 1 if◌then◌else◌
abbrev pub if◌then◌else◌ {ℓ} : {A : Type ℓ} → Bool → A → A → A
if true then x else y = x
if false then x else y = y

pub leb→le : (a b : ℕ) → leb a b ≡ true → a ≤ b
leb→le a b h = ground arith

pub ==_iff : (a b : ℕ) → ((a == b) ≡ true) ↔ (a ≡ b)
==_iff a b = ground arith

pub Bool-cases : (b : Bool) → (b ≡ true) ⊎ (b ≡ false)
Bool-cases true = inl refl
Bool-cases false = inr refl

pub Option-cases {ℓ} : {A : Type ℓ} (o : Option A) → (o ≡ none) ⊎ ((a : A) × (o ≡ some a))
Option-cases none = inl refl
Option-cases (some a) = inr (a, refl)

pub &&-eq-true : (a b : Bool) → (a && b) ≡ true → (a ≡ true) × (b ≡ true)
&&-eq-true a b h = ground arith

pub ||-true : (b : Bool) → (b || true) ≡ true
||-true b = ground arith

-- A comparator's answer, the sign of what a JavaScript comparator returns.
pub data Sign : Type 0 where
  before same after : Sign

abbrev pub compare_numbers : ℕ → ℕ → Sign
compare_numbers a b = elim (compare a b) [
  | Ordering.lt ↦ before
  | Ordering.eq ↦ same
  | Ordering.gt ↦ after
]

-- `first || second` on comparators: the second speaks where the first is silent.
infixr 30 ◌then_by◌
abbrev pub ◌then_by◌ : Sign → Sign → Sign
◌then_by◌ same s = s
◌then_by◌ before s = before
◌then_by◌ after s = after

abbrev pub flip_sign : Sign → Sign
flip_sign before = after
flip_sign same = same
flip_sign after = before

abbrev pub is_after : Sign → Bool
is_after after = true
is_after _ = false
