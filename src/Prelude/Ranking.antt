-- ===== src/Prelude/Ranking.antt =====
-- Comparators that rank by a number or a text and then by the next one.
use Prim.Native.Nat.{ℕ}
use mathlib.Core.Path.{◌≡◌, refl}
use mathlib.Core.Bool.{false}
use mathlib.Core.List.{[], ◌∷◌}
use native.Mathlib.Omega.{arith}
use growthmind.Prelude.Tests.{Sign, compare_numbers, ◌then_by◌, flip_sign, is_after}
use growthmind.Prelude.Texts.{Text, compare_texts, compare_texts-flip}
use growthmind.Prelude.Sorting.{IsOrder}

-- A total preorder by its sign: the reverse has the flipped sign, and the sign of a chain of two
-- steps that are not `after` is that of the first step which decides.
pub record IsRanking {ℓ} {A : Type ℓ} (cmp : A → A → Sign) : Type ℓ where
  pub flips : (x y : A) → cmp y x ≡ flip_sign (cmp x y)
  pub chains :
      (x y z : A)
      → is_after (cmp x y) ≡ false
      → is_after (cmp y z) ≡ false
      → cmp x z ≡ (cmp x y then_by cmp y z)

pub IsRanking-then :
    {A : Type 0} {f g : A → A → Sign}
    → IsRanking f
    → IsRanking g
    → IsRanking (λ x y. f x y then_by g x y)
IsRanking-then {f} {g} r s = record {
  flips = λ x y. ground (arith, r.flips x y, s.flips x y);
  chains = λ x y z p q. ground (arith, r.chains x y z, s.chains x y z);
}

pub IsRanking-numbers :
    {A : Type 0} (f : A → ℕ) → IsRanking (λ (x : A) (y : A). compare_numbers (f x) (f y))
IsRanking-numbers f = record { flips = λ x y. ground arith; chains = λ x y z p q. ground arith }

pub IsRanking-falling :
    {A : Type 0} (f : A → ℕ) → IsRanking (λ (x : A) (y : A). compare_numbers (f y) (f x))
IsRanking-falling f = record { flips = λ x y. ground arith; chains = λ x y z p q. ground arith }

compare_texts-chain :
    (s t u : Text)
    → is_after (compare_texts s t) ≡ false
    → is_after (compare_texts t u) ≡ false
    → compare_texts s u ≡ (compare_texts s t then_by compare_texts t u)
unfolding compare_texts
compare_texts-chain [] [] u p q = refl
compare_texts-chain [] (b ∷ t) [] p q = ground arith
compare_texts-chain [] (b ∷ t) (c ∷ u) p q = refl
compare_texts-chain (a ∷ s) [] u p q = ground arith
compare_texts-chain (a ∷ s) (b ∷ t) [] p q = ground arith
compare_texts-chain (a ∷ s) (b ∷ t) (c ∷ u) p q = ground (arith, compare_texts-chain s t u)

pub IsRanking-texts :
    {A : Type 0} (f : A → Text) → IsRanking (λ (x : A) (y : A). compare_texts (f x) (f y))
IsRanking-texts f = record {
  flips = λ x y. compare_texts-flip (f x) (f y);
  chains = λ x y z p q. compare_texts-chain (f x) (f y) (f z) p q;
}

pub order-of_ranking : {A : Type 0} {cmp : A → A → Sign} → IsRanking cmp → IsOrder cmp
order-of_ranking r = record {
  flips = r.flips;
  chains = λ x y z p q. ground (arith, r.chains x y z p q);
}
