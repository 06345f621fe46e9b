-- ===== src/Prelude/Entries.antt =====
-- Maps whose keys are texts: what holds of their entries, and keys that stand once.
use mathlib.Core.Path.{◌≡◌, ◌∙◌}
use mathlib.Core.Logic.{inl, inr}
use mathlib.Core.Bool.{false}
use mathlib.Core.List.{List, [], ◌∷◌, map}
use mathlib.Core.Option.{some}
use native.Mathlib.Omega.{arith}
use growthmind.Prelude.Tests.{Bool-cases}
use growthmind.Prelude.Lists.{All}
use growthmind.Prelude.Texts.{Text, text_eq, text_eq_iff, text_eq_comm}
use growthmind.Prelude.Maps.{map_get, map_set}

-- What holds of every entry of a map whose keys are texts.
abbrev pub AllEntries : {V : Type 0} → (Text → V → Type 0) → List (Text × V) → Type 0
AllEntries P [] = Unit
AllEntries P ((k, v) ∷ m) = P k v × AllEntries P m

module _ {V : Type 0} where
  pub AllEntries-map_set :
      (P Q : Text → V → Type 0) (k : Text) (v : V) (m : List (Text × V))
      → ((j : Text) (w : V) → P j w → Q j w)
      → AllEntries P m
      → Q k v
      → AllEntries Q (map_set text_eq k v m)
  unfolding map_set
  AllEntries-map_set P Q k v [] f h q = (q, tt)
  AllEntries-map_set P Q k v ((j, w) ∷ m) f h q = elim (Bool-cases (text_eq j k)) [
    | inl e ↦ rw (e, (text_eq_iff j k).0 e) (q, weaken m h.1)
    | inr e ↦ rw e (f j w h.0, AllEntries-map_set P Q k v m f h.1 q)
  ]
    where
      weaken : (n : List (Text × V)) → AllEntries P n → AllEntries Q n
      weaken [] g = tt
      weaken ((i, u) ∷ n) g = (f i u g.0, weaken n g.1)

  pub AllEntries-map_get :
      (P : Text → V → Type 0) (k : Text) (m : List (Text × V)) {v : V}
      → AllEntries P m
      → map_get text_eq k m ≡ some v
      → P k v
  unfolding map_get
  AllEntries-map_get P k [] h e = cc
  AllEntries-map_get P k ((j, w) ∷ m) {v} h e = elim (Bool-cases (text_eq j k)) [
    | inl found ↦
        let same_value : w ≡ v = ground arith in
        rw (← same_value) (rw ((text_eq_iff j k).0 found) at h.0)
    | inr other ↦ AllEntries-map_get P k m h.1 (ground arith)
  ]

  pub AllEntries-imply :
      (P Q : Text → V → Type 0) (m : List (Text × V))
      → ((j : Text) (w : V) → P j w → Q j w)
      → AllEntries P m
      → AllEntries Q m
  AllEntries-imply P Q [] f h = tt
  AllEntries-imply P Q ((j, w) ∷ m) f h = (f j w h.0, AllEntries-imply P Q m f h.1)

  abbrev pub keys : List (Text × V) → List Text
  keys m = map (λ (e : Text × V). e.0) m

  -- A key stands once.
  abbrev pub Distinct : List (Text × V) → Type 0
  Distinct [] = Unit
  Distinct ((k, v) ∷ m) = (All (λ (j : Text). text_eq j k ≡ false) (keys m)) × Distinct m

  All-keys-map_set :
      (P : Text → Type 0) (k : Text) (v : V) (m : List (Text × V))
      → All P (keys m)
      → P k
      → All P (keys (map_set text_eq k v m))
  unfolding map_set
  All-keys-map_set P k v [] h p = (p, tt)
  All-keys-map_set P k v ((j, w) ∷ m) h p = ground (arith, All-keys-map_set P k v m h.1 p)

  pub Distinct-map_set :
      (k : Text) (v : V) (m : List (Text × V)) → Distinct m → Distinct (map_set text_eq k v m)
  unfolding map_set
  Distinct-map_set k v [] h = (tt, tt)
  Distinct-map_set k v ((j, w) ∷ m) h = elim (Bool-cases (text_eq j k)) [
    | inl e ↦ rw e h
    | inr e ↦ rw e (
      All-keys-map_set (λ i. text_eq i j ≡ false) k v m h.0 (text_eq_comm k j ∙ e),
      Distinct-map_set k v m h.1,
    )
  ]
