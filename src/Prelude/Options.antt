-- ===== src/Prelude/Options.antt =====
-- Code that may throw, as `Option`: `none` is what was thrown.
use mathlib.Core.Path.{◌≡◌, refl}
use mathlib.Core.List.{List, [], ◌∷◌}
use mathlib.Core.Option.{Option, none, some}
use native.Mathlib.Omega.{arith}
use mathlib.Core.Bool.{Bool, true, false}
use mathlib.Core.Logic.{inl, inr}
use growthmind.Prelude.Tests.{if◌then◌else◌, Bool-cases}
use growthmind.Prelude.Lists.{All, Any, any, find?}

infixl 5 ◌>>=◌
abbrev pub ◌>>=◌ : {A B : Type 0} → Option A → (A → Option B) → Option B
none >>= f = none
some a >>= f = f a

-- A loop whose body may throw.
unfoldable pub traverse : {A B : Type 0} → (A → Option B) → List A → Option (List B)
traverse f [] = some []
traverse f (x ∷ xs) = do y ← f x; ys ← traverse f xs; some (y ∷ ys)

-- Something is returned.
abbrev pub Returns : {A : Type 0} → Option A → Type 0
Returns {A} o = (a : A) × (o ≡ some a)

pub traverse_total :
    {A B : Type 0} (f : A → Option B) (xs : List A)
    → All (λ x. Returns (f x)) xs
    → Returns (traverse f xs)
unfolding traverse
traverse_total f [] h = ([], refl)
traverse_total f (x ∷ xs) ((y, e), h) =
    let (ys, e') = traverse_total f xs h in (y ∷ ys, ground arith)

-- A sequence returns if each part does.
pub bind_total :
    {A B : Type 0} (m : Option A) (f : A → Option B)
    → Returns m
    → ((a : A) → Returns (f a))
    → Returns (m >>= f)
bind_total none f (a, e) k = cc
bind_total (some a) f r k = k a

pub if_total :
    {A : Type 0} (b : Bool) (x y : Option A) → Returns x → Returns y → Returns (if b then x else y)
if_total true x y r s = r
if_total false x y r s = s

-- What a sequence returned, each part returned.
pub bind-eq-some :
    {A B : Type 0} (m : Option A) (f : A → Option B) {b : B}
    → (m >>= f) ≡ some b
    → (a : A) × (m ≡ some a) × (f a ≡ some b)
bind-eq-some none f h = cc
bind-eq-some (some a) f h = (a, refl, h)

pub traverse-All :
    {A B : Type 0} (P : B → Type 0) (f : A → Option B) (xs : List A)
    → ((x : A) (y : B) → f x ≡ some y → P y)
    → {ys : List B} → traverse f xs ≡ some ys
    → All P ys
unfolding traverse
traverse-All P f [] p {ys} h = let e : [] ≡ ys = ground arith in rw (← e) tt
traverse-All P f (x ∷ xs) p {ys} h =
    let (y, e, h') = bind-eq-some (f x) _ h in
    let (zs, e', h'') = bind-eq-some (traverse f xs) _ h' in
    let same : y ∷ zs ≡ ys = ground arith in rw (← same) (p x y e, traverse-All P f xs p e')

-- What `find` finds, and that it finds something where something is.
pub find?-Any :
    {A : Type 0} (p : A → Bool) (xs : List A) {x : A}
    → find? p xs ≡ some x
    → Any (λ y. (y ≡ x) × (p y ≡ true)) xs
find?-Any p [] h = cc
find?-Any p (y ∷ ys) h = elim (Bool-cases (p y)) [
  | inl e ↦ inl (ground arith)
  | inr e ↦ inr (find?-Any p ys (ground arith))
]

pub find?_total : {A : Type 0} (p : A → Bool) (xs : List A) → any xs p ≡ true → Returns (find? p xs)
find?_total p [] h = cc
find?_total p (y ∷ ys) h = elim (Bool-cases (p y)) [
  | inl e ↦ (y, ground arith)
  | inr e ↦ let (x, found) = find?_total p ys (ground arith) in (x, ground arith)
]

pub find?-none : {A : Type 0} (p : A → Bool) (xs : List A) → find? p xs ≡ none → any xs p ≡ false
find?-none p [] h = refl
find?-none p (x ∷ xs) h = elim (Bool-cases (p x)) [
  | inl e ↦ cc (rw e at h)
  | inr e ↦ rw e (find?-none p xs (rw e at h))
]
