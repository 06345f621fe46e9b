-- ===== src/Prelude/Maps.antt =====
-- `Map` and `Set` in the order of insertion: association lists in which a key stands once, where it
-- was first set.
use Prim.Native.Nat.{suc}
use mathlib.Core.Path.{◌≡◌, refl}
use mathlib.Core.Logic.{inl, inr}
use mathlib.Core.List.{List, [], ◌∷◌, map}
use mathlib.Core.Option.{Option, none, some}
use mathlib.Core.Bool.{Bool, true}
use native.Mathlib.Omega.{arith}
use growthmind.Prelude.Tests.{if◌then◌else◌, Bool-cases}
use growthmind.Prelude.Lists.{any, length}

module _ {K V : Type 0} (same_key : K → K → Bool) where
  unfoldable pub map_get : K → List (K × V) → Option V
  map_get k [] = none
  map_get k ((j, v) ∷ m) = let rest = map_get k m in if same_key j k then some v else rest

  unfoldable pub map_set : K → V → List (K × V) → List (K × V)
  map_set k v [] = (k, v) ∷ []
  map_set k v ((j, w) ∷ m) =
      let rest = map_set k v m in if same_key j k then (j, v) ∷ m else (j, w) ∷ rest

  abbrev pub map_values : List (K × V) → List V
  map_values m = map (λ (e : K × V). e.1) m

module _ {K : Type 0} (same_key : K → K → Bool) where
  abbrev pub set_has : K → List K → Bool
  set_has k s = any s (λ j. same_key j k)

  abbrev pub set_add : K → List K → List K
  set_add k [] = k ∷ []
  set_add k (j ∷ s) = let rest = set_add k s in if same_key j k then j ∷ s else j ∷ rest

-- What holds of every value of a map.
abbrev pub AllValues : {K V : Type 0} → (V → Type 0) → List (K × V) → Type 0
AllValues P [] = Unit
AllValues P ((k, v) ∷ m) = P v × AllValues P m

module _ {K V : Type 0} (same_key : K → K → Bool) (P : V → Type 0) where
  pub AllValues-map_set :
      (k : K) (v : V) (m : List (K × V))
      → AllValues P m
      → P v
      → AllValues P (map_set same_key k v m)
  unfolding map_set
  AllValues-map_set k v [] h p = (p, tt)
  AllValues-map_set k v ((j, w) ∷ m) h p = ground (arith, AllValues-map_set k v m h.1 p)

  -- The value at a key, or the one that is used for a missing key.
  pub AllValues-map_get :
      (k : K) (m : List (K × V)) {v : V} → AllValues P m → map_get same_key k m ≡ some v → P v
  unfolding map_get
  AllValues-map_get k [] h e = cc
  AllValues-map_get k ((j, w) ∷ m) {v} h e = elim (Bool-cases (same_key j k)) [
    | inl found ↦ let same_value : w ≡ v = ground arith in rw (← same_value) h.0
    | inr other ↦ AllValues-map_get k m h.1 (ground arith)
  ]

pub AllValues-imply :
    {K V : Type 0} (P Q : V → Type 0) (m : List (K × V))
    → ((v : V) → P v → Q v)
    → AllValues P m
    → AllValues Q m
AllValues-imply P Q [] f h = tt
AllValues-imply P Q ((k, v) ∷ m) f h = (f v h.0, AllValues-imply P Q m f h.1)

module _ {K : Type 0} (same_key : K → K → Bool) (k : K) where
  -- A key that is in a set already leaves it as it was.
  pub length-set_add :
      (s : List K)
      → length (set_add same_key k s) ≡ (if set_has same_key k s then length s else suc (length s))
  length-set_add [] = refl
  length-set_add (j ∷ s) = ground (arith, length-set_add s)

  pub set_has-set_add :
      same_key k k ≡ true → (s : List K) → set_has same_key k (set_add same_key k s) ≡ true
  set_has-set_add e [] = ground arith
  set_has-set_add e (j ∷ s) = ground (arith, set_has-set_add e s)

-- A comparison of keys that tells apart by what equal keys share.
module _ {K V : Type 0} (same_key : K → K → Bool)
    (left : (i j k : K) → same_key i j ≡ true → same_key i k ≡ same_key j k)
    (right : (i j k : K) → same_key j k ≡ true → same_key i j ≡ same_key i k) where
  pub map_get-map_set :
      (j k : K) (v : V) (m : List (K × V))
      → map_get same_key k (map_set same_key j v m)
        ≡ (if same_key j k then some v else map_get same_key k m)
  unfolding map_get map_set
  map_get-map_set j k v [] = refl
  map_get-map_set j k v ((i, w) ∷ m) = elim (Bool-cases (same_key i j)) [
    | inl e ↦ rw (e, left i j k e) (ground arith)
    | inr e ↦ rw e (elim (Bool-cases (same_key i k)) [
      | inl f ↦ rw f (ground (arith, right i j k))
      | inr f ↦ rw f (map_get-map_set j k v m)
    ])
  ]

  pub map_get_same :
      (j k : K) (m : List (K × V))
      → same_key j k ≡ true
      → map_get same_key j m ≡ map_get same_key k m
  unfolding map_get
  map_get_same j k [] h = refl
  map_get_same j k ((i, w) ∷ m) h = rw (right i j k h, map_get_same j k m h) refl
