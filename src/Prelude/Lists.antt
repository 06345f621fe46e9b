-- ===== src/Prelude/Lists.antt =====
-- Lists by Boolean predicates and native numbers, under the library's names, and stable sorting.
use Prim.Native.Nat.{ℕ, zero, suc, ◌+◌, ◌≤◌}
use mathlib.Core.Path.{◌≡◌, refl, ap}
use mathlib.Core.Logic.{◌⊎◌, inl, inr}
use mathlib.Core.List.{List, [], ◌∷◌, ◌++◌, map, Mem, Mem-prop, mem-cons}
use mathlib.Core.Logic.Or
use mathlib.Core.Option.{Option, none, some}
use mathlib.Core.Bool.{Bool, true, false, ◌&&◌, ◌||◌, not}
use native.Mathlib.Omega.{arith}
use growthmind.Prelude.Tests.{if◌then◌else◌, Bool-cases}

module _ {ℓ} {A : Type ℓ} where
  abbrev pub length : List A → ℕ
  length [] = 0
  length (x ∷ xs) = suc (length xs)

  abbrev pub filter : (A → Bool) → List A → List A
  filter p [] = []
  filter p (x ∷ xs) = let rest = filter p xs in if p x then x ∷ rest else rest

  abbrev pub any : List A → (A → Bool) → Bool
  any [] p = false
  any (x ∷ xs) p = p x || any xs p

  abbrev pub all : List A → (A → Bool) → Bool
  all [] p = true
  all (x ∷ xs) p = p x && all xs p

  abbrev pub is_empty : List A → Bool
  is_empty [] = true
  is_empty (x ∷ xs) = false

  abbrev pub head? : List A → Option A
  head? [] = none
  head? (x ∷ xs) = some x

  abbrev pub get_last? : List A → Option A
  get_last? [] = none
  get_last? (x ∷ []) = some x
  get_last? (x ∷ y ∷ xs) = get_last? (y ∷ xs)

  abbrev pub find? : (A → Bool) → List A → Option A
  find? p [] = none
  find? p (x ∷ xs) = let rest = find? p xs in if p x then some x else rest

  abbrev pub take : ℕ → List A → List A
  take zero xs = []
  take (suc n) [] = []
  take (suc n) (x ∷ xs) = x ∷ take n xs

  abbrev pub drop : ℕ → List A → List A
  drop zero xs = xs
  drop (suc n) [] = []
  drop (suc n) (x ∷ xs) = drop n xs

-- A predicate that holds of every element, and one that holds of some element.
abbrev pub All {ℓ κ} : {A : Type ℓ} → (A → Type κ) → List A → Type κ
All P [] = Unit
All P (x ∷ xs) = P x × All P xs

abbrev pub Any {ℓ} : {A : Type ℓ} → (A → Type 0) → List A → Type 0
Any P [] = ⊥
Any P (x ∷ xs) = P x ⊎ Any P xs

module _ {ℓ} {A : Type ℓ} where
  pub length-append : (xs ys : List A) → length (xs ++ ys) ≡ length xs + length ys
  length-append [] ys = omega arith
  length-append (x ∷ xs) ys = omega (arith, length-append xs ys)

  pub length-filter-le : (p : A → Bool) (xs : List A) → length (filter p xs) ≤ length xs
  length-filter-le p [] = omega arith
  length-filter-le p (x ∷ xs) = ground (arith, length-filter-le p xs)

  -- What one test keeps and what its negation keeps are the whole list.
  pub length-filter-not :
      (p : A → Bool) (xs : List A)
      → length (filter p xs) + length (filter (λ x. not (p x)) xs) ≡ length xs
  length-filter-not p [] = refl
  length-filter-not p (x ∷ xs) = ground (arith, length-filter-not p xs)

  -- A stronger test keeps no more.
  pub length-filter_mono :
      (p q : A → Bool) (xs : List A)
      → ((x : A) → p x ≡ true → q x ≡ true)
      → length (filter p xs) ≤ length (filter q xs)
  length-filter_mono p q [] h = omega arith
  length-filter_mono p q (x ∷ xs) h = ground (arith, length-filter_mono p q xs h, h x)

  pub any_sound : (xs : List A) (p : A → Bool) → any xs p ≡ true → Any (λ x. p x ≡ true) xs
  any_sound [] p h = cc
  any_sound (x ∷ xs) p h = elim (Bool-cases (p x)) [
    | inl e ↦ inl e
    | inr e ↦ inr (any_sound xs p (ground arith))
  ]

  pub any_complete : (xs : List A) (p : A → Bool) → Any (λ x. p x ≡ true) xs → any xs p ≡ true
  any_complete [] p h = absurd h
  any_complete (x ∷ xs) p (inl e) = ground arith
  any_complete (x ∷ xs) p (inr a) = ground (arith, any_complete xs p a)

  pub all_sound : (xs : List A) (p : A → Bool) → all xs p ≡ true → All (λ x. p x ≡ true) xs
  all_sound [] p h = tt
  all_sound (x ∷ xs) p h = (ground arith, all_sound xs p (ground arith))

  pub All-filter : (p : A → Bool) (xs : List A) → All (λ x. p x ≡ true) (filter p xs)
  All-filter p [] = tt
  All-filter p (x ∷ xs) = ground (arith, All-filter p xs)

  pub filter-of_All : (p : A → Bool) (xs : List A) → All (λ x. p x ≡ true) xs → filter p xs ≡ xs
  filter-of_All p [] h = refl
  filter-of_All p (x ∷ xs) h = ground (arith, filter-of_All p xs h.1)

  pub filter-filter : (p : A → Bool) (xs : List A) → filter p (filter p xs) ≡ filter p xs
  filter-filter p xs = filter-of_All p (filter p xs) (All-filter p xs)

  pub Any-of_filter :
      (P : A → Type 0) (p : A → Bool) (xs : List A)
      → Any P (filter p xs)
      → Any (λ x. (p x ≡ true) × P x) xs
  Any-of_filter P p [] h = absurd h
  Any-of_filter P p (x ∷ xs) h = ground (arith, Any-of_filter P p xs)

  pub head?-eq-some : (xs : List A) {x : A} → head? xs ≡ some x → (rest : List A) × (xs ≡ x ∷ rest)
  head?-eq-some [] h = cc
  head?-eq-some (y ∷ ys) h = (ys, ground arith)

  pub All-map {κ} :
      (P : A → Type κ) (Q : A → Type 0) (xs : List A) → ((x : A) → P x → Q x) → All P xs → All Q xs
  All-map P Q [] f h = tt
  All-map P Q (x ∷ xs) f h = (f x h.0, All-map P Q xs f h.1)

  pub mem-tail : {x y : A} {ys : List A} → Mem x ys → Mem x (y ∷ ys)
  mem-tail h = mem-cons.1 (Or.inr h)

  pub mem-of_filter : (p : A → Bool) (xs : List A) {x : A} → Mem x (filter p xs) → Mem x xs
  mem-of_filter p [] h = h
  mem-of_filter p (y ∷ ys) {x} h = elim (Bool-cases (p y)) [
    | inl e ↦
        Or.elim Mem-prop (mem-cons.0 (rw e at h)) (λ q. mem-cons.1 (Or.inl q))
          (λ r. mem-tail (mem-of_filter p ys r))
    | inr e ↦ mem-tail (mem-of_filter p ys (rw e at h))
  ]

module _ {ℓ κ} {A : Type ℓ} {B : Type κ} where
  pub length-map : (f : A → B) (xs : List A) → length (map f xs) ≡ length xs
  length-map f [] = refl
  length-map f (x ∷ xs) = ap suc (length-map f xs)

  pub filter-map :
      (f : A → B) (p : B → Bool) (xs : List A)
      → filter p (map f xs) ≡ map f (filter (λ x. p (f x)) xs)
  filter-map f p [] = refl
  filter-map f p (x ∷ xs) = ground (arith, filter-map f p xs)

module _ {ℓ} {A : Type ℓ} where
  pub any_imply :
      (xs : List A) (p q : A → Bool)
      → ((x : A) → p x ≡ true → q x ≡ true)
      → any xs p ≡ true
      → any xs q ≡ true
  any_imply [] p q f h = h
  any_imply (x ∷ xs) p q f h = ground (arith, f x, any_imply xs p q f)

  -- A weaker test that holds of one element more keeps one more.
  pub length-filter_more :
      (p q : A → Bool) (xs : List A)
      → ((x : A) → p x ≡ true → q x ≡ true)
      → any xs (λ x. q x && not (p x)) ≡ true
      → suc (length (filter p xs)) ≤ length (filter q xs)
  length-filter_more p q [] f h = cc
  length-filter_more p q (x ∷ xs) f h =
      ground (arith, f x, length-filter_more p q xs f, length-filter_mono p q xs f)

  pub all-append_one :
      (xs : List A) (x : A) (p : A → Bool) → all (xs ++ x ∷ []) p ≡ (all xs p && p x)
  all-append_one [] x p = ground arith
  all-append_one (y ∷ ys) x p = ground (arith, all-append_one ys x p)

  pub filled-of_get_last? : (xs : List A) {x : A} → get_last? xs ≡ some x → is_empty xs ≡ false
  filled-of_get_last? [] h = cc
  filled-of_get_last? (y ∷ ys) h = refl

pub is_empty-of_length :
    {A : Type 0} (xs ys : List A) → length xs ≡ length ys → is_empty xs ≡ is_empty ys
is_empty-of_length [] [] e = refl
is_empty-of_length [] (y ∷ ys) e = absurd (omega (arith, e))
is_empty-of_length (x ∷ xs) [] e = absurd (omega (arith, e))
is_empty-of_length (x ∷ xs) (y ∷ ys) e = refl

pub head?-filled : {A : Type 0} (xs : List A) → is_empty xs ≡ false → (x : A) × (head? xs ≡ some x)
head?-filled [] h = cc
head?-filled (x ∷ xs) h = (x, refl)

pub All-append :
    {A : Type 0} (P : A → Type 0) (xs ys : List A) → All P xs → All P ys → All P (xs ++ ys)
All-append P [] ys h k = k
All-append P (x ∷ xs) ys h k = (h.0, All-append P xs ys h.1 k)

pub All-take : {A : Type 0} (P : A → Type 0) (n : ℕ) (xs : List A) → All P xs → All P (take n xs)
All-take P zero xs h = tt
All-take P (suc n) [] h = tt
All-take P (suc n) (x ∷ xs) h = (h.0, All-take P n xs h.1)

pub length-take-le : {A : Type 0} (n : ℕ) (xs : List A) → length (take n xs) ≤ n
length-take-le zero xs = omega arith
length-take-le (suc n) [] = omega arith
length-take-le (suc n) (x ∷ xs) = omega (arith, length-take-le n xs)
