-- ===== src/Prelude/Sorting.antt =====
-- `toSorted` by a comparator: the language's sort is stable, and a stable sort by a comparator that
-- orders its elements has one result, the one that insertion gives. `new Set(xs)` keeps each value
-- once, where it first stands.
use Prim.Native.Nat.{suc}
use mathlib.Core.Path.{◌≡◌, refl, ap, ◌∙◌}
use mathlib.Core.Logic.{◌≢◌, inl, inr}
use mathlib.Core.Bool.{Bool, true, false, not, ◌||◌, ◌&&◌}
use mathlib.Core.List.{List, [], ◌∷◌, Perm}
use mathlib.Core.List.Perm
use native.Mathlib.Omega.{arith}
use growthmind.Prelude.Tests.{if◌then◌else◌, Bool-cases, Sign, is_after, flip_sign}
use growthmind.Prelude.Lists.{All, is_empty, length, filter, any, all}

module _ {ℓ} {A : Type ℓ} (cmp : A → A → Sign) where
  unfoldable pub sort_insert : A → List A → List A
  sort_insert x [] = x ∷ []
  sort_insert x (y ∷ ys) =
      let rest = sort_insert x ys in if is_after (cmp x y) then y ∷ rest else x ∷ y ∷ ys

  unfoldable pub to_sorted : List A → List A
  unfolding sort_insert
  to_sorted [] = []
  to_sorted (x ∷ xs) = sort_insert x (to_sorted xs)

  -- No element stands behind one that it should precede.
  abbrev pub IsSorted : List A → Type 0
  IsSorted [] = Unit
  IsSorted (x ∷ xs) = All (λ y. is_after (cmp x y) ≡ false) xs × IsSorted xs

  sort_insert-perm : (x : A) (xs : List A) → Perm (sort_insert x xs) (x ∷ xs)
  unfolding sort_insert
  sort_insert-perm x [] = Perm.refl _
  sort_insert-perm x (y ∷ ys) = elim (Bool-cases (is_after (cmp x y))) [
    | inl e ↦ rw e (Perm.trans (Perm.cons y (sort_insert-perm x ys)) (Perm.swap x y ys))
    | inr e ↦ rw e (Perm.refl _)
  ]

  pub to_sorted-perm : (xs : List A) → Perm (to_sorted xs) xs
  unfolding to_sorted
  to_sorted-perm [] = Perm.refl _
  to_sorted-perm (x ∷ xs) =
      Perm.trans (sort_insert-perm x (to_sorted xs)) (Perm.cons x (to_sorted-perm xs))

  -- A comparator that orders its elements.
  pub record IsOrder : Type ℓ where
    pub flips : (x y : A) → cmp y x ≡ flip_sign (cmp x y)
    pub chains :
        (x y z : A)
        → is_after (cmp x y) ≡ false
        → is_after (cmp y z) ≡ false
        → is_after (cmp x z) ≡ false

  All-sort_insert :
      (P : A → Type 0) (x : A) (xs : List A) → P x → All P xs → All P (sort_insert x xs)
  unfolding sort_insert
  All-sort_insert P x [] p h = (p, tt)
  All-sort_insert P x (y ∷ ys) p h = ground (arith, All-sort_insert P x ys p h.1)

  pub All-to_sorted : (P : A → Type 0) (xs : List A) → All P xs → All P (to_sorted xs)
  unfolding to_sorted
  All-to_sorted P [] h = tt
  All-to_sorted P (x ∷ xs) h = All-sort_insert P x (to_sorted xs) h.0 (All-to_sorted P xs h.1)

  All-of_sort_insert :
      (P : A → Type 0) (x : A) (xs : List A) → All P (sort_insert x xs) → P x × All P xs
  unfolding sort_insert
  All-of_sort_insert P x [] h = h
  All-of_sort_insert P x (y ∷ ys) h = ground (arith, All-of_sort_insert P x ys)

  pub All-of_to_sorted : (P : A → Type 0) (xs : List A) → All P (to_sorted xs) → All P xs
  unfolding to_sorted
  All-of_to_sorted P [] h = tt
  All-of_to_sorted P (x ∷ xs) h =
      let (p, rest) = All-of_sort_insert P x (to_sorted xs) h in (p, All-of_to_sorted P xs rest)

  any-sort_insert :
      (p : A → Bool) (x : A) (xs : List A) → any (sort_insert x xs) p ≡ (p x || any xs p)
  unfolding sort_insert
  any-sort_insert p x [] = refl
  any-sort_insert p x (y ∷ ys) = ground (arith, any-sort_insert p x ys)

  pub any-to_sorted : (p : A → Bool) (xs : List A) → any (to_sorted xs) p ≡ any xs p
  unfolding to_sorted
  any-to_sorted p [] = refl
  any-to_sorted p (x ∷ xs) =
      any-sort_insert p x (to_sorted xs) ∙ ap (λ b. p x || b) (any-to_sorted p xs)

  all-sort_insert :
      (p : A → Bool) (x : A) (xs : List A) → all (sort_insert x xs) p ≡ (p x && all xs p)
  unfolding sort_insert
  all-sort_insert p x [] = refl
  all-sort_insert p x (y ∷ ys) = ground (arith, all-sort_insert p x ys)

  pub all-to_sorted : (p : A → Bool) (xs : List A) → all (to_sorted xs) p ≡ all xs p
  unfolding to_sorted
  all-to_sorted p [] = refl
  all-to_sorted p (x ∷ xs) =
      all-sort_insert p x (to_sorted xs) ∙ ap (λ b. p x && b) (all-to_sorted p xs)

  length-sort_insert : (x : A) (xs : List A) → length (sort_insert x xs) ≡ suc (length xs)
  unfolding sort_insert
  length-sort_insert x [] = refl
  length-sort_insert x (y ∷ ys) = ground (arith, length-sort_insert x ys)

  pub length-to_sorted : (xs : List A) → length (to_sorted xs) ≡ length xs
  unfolding to_sorted
  length-to_sorted [] = refl
  length-to_sorted (x ∷ xs) = length-sort_insert x (to_sorted xs) ∙ ap suc (length-to_sorted xs)

  not_empty-sort_insert : (x : A) (xs : List A) → sort_insert x xs ≢ []
  unfolding sort_insert
  not_empty-sort_insert x [] h = cc
  not_empty-sort_insert x (y ∷ ys) h = ground arith

  -- Sorting a list that is not empty leaves a first element.
  pub to_sorted-cons :
      (xs : List A) → is_empty xs ≡ false → (y : A) × (ys : List A) × (to_sorted xs ≡ y ∷ ys)
  unfolding to_sorted
  to_sorted-cons [] h = cc
  to_sorted-cons (x ∷ xs) h = first (sort_insert x (to_sorted xs)) refl
    where
      first :
          (l : List A)
          → sort_insert x (to_sorted xs) ≡ l
          → (y : A) × (ys : List A) × (sort_insert x (to_sorted xs) ≡ y ∷ ys)
      first [] e = absurd (not_empty-sort_insert x (to_sorted xs) e)
      first (y ∷ ys) e = (y, ys, e)

module _ {ℓ} {A : Type ℓ} (cmp : A → A → Sign) (o : IsOrder cmp) where
  All-chains :
      (x y : A) (ys : List A)
      → is_after (cmp x y) ≡ false
      → All (λ z. is_after (cmp y z) ≡ false) ys
      → All (λ z. is_after (cmp x z) ≡ false) ys
  All-chains x y [] h hs = tt
  All-chains x y (z ∷ zs) h hs = (o.chains x y z h hs.0, All-chains x y zs h hs.1)

  not_after_flip : (x y : A) → is_after (cmp x y) ≡ true → is_after (cmp y x) ≡ false
  not_after_flip x y h = rw (o.flips x y) (flip_case (cmp x y) h)
    where
      flip_case : (s : Sign) → is_after s ≡ true → is_after (flip_sign s) ≡ false
      flip_case s e = ground arith

  sort_insert-IsSorted :
      (x : A) (xs : List A) → IsSorted cmp xs → IsSorted cmp (sort_insert cmp x xs)
  unfolding sort_insert
  sort_insert-IsSorted x [] h = (tt, tt)
  sort_insert-IsSorted x (y ∷ ys) h = elim (Bool-cases (is_after (cmp x y))) [
    | inl e ↦ rw e (
      All-sort_insert cmp (λ z. is_after (cmp y z) ≡ false) x ys (not_after_flip x y e) h.0,
      sort_insert-IsSorted x ys h.1,
    )
    | inr e ↦ rw e ((e, All-chains x y ys e h.0), h)
  ]

  pub to_sorted-IsSorted : (xs : List A) → IsSorted cmp (to_sorted cmp xs)
  unfolding to_sorted
  to_sorted-IsSorted [] = tt
  to_sorted-IsSorted (x ∷ xs) = sort_insert-IsSorted x (to_sorted cmp xs) (to_sorted-IsSorted xs)

module _ {ℓ} {A : Type ℓ} (same_value : A → A → Bool) where
  -- `[...new Set(xs)]`
  unfoldable pub to_set : List A → List A
  to_set [] = []
  to_set (x ∷ xs) = x ∷ filter (λ y. not (same_value x y)) (to_set xs)
