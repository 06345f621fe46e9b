-- ===== src/Prelude/Texts.antt =====
-- JavaScript strings as lists of UTF-16 code units: the order of `<`, `===`, and the searches.
use Prim.Native.Nat.{ℕ}
use Prim.Native.Char.{code}
use Prim.Native.String.{String}
use mathlib.Core.Path.{ap, ◌≡◌, refl}
use mathlib.Core.Logic.{◌↔◌}
use mathlib.Core.List.{List, [], ◌∷◌, ◌++◌}
use mathlib.Core.Bool.{Bool, true, false, ◌&&◌, ◌||◌}
use native.Mathlib.Omega.{arith}
use growthmind.Prelude.Tests.{
  ◌==◌, Sign, before, same, after, ◌then_by◌, flip_sign, compare_numbers,
}

-- One element for each UTF-16 code unit.
abbrev pub Text : Type 0
Text = List ℕ

-- A literal that the source writes in ASCII.
abbrev pub text : String → Text
text String.[] = []
text (String.◌∷◌ c s) = code c ∷ text s

-- `===`
unfoldable pub text_eq : Text → Text → Bool
text_eq [] [] = true
text_eq [] (b ∷ t) = false
text_eq (a ∷ s) [] = false
text_eq (a ∷ s) (b ∷ t) = a == b && text_eq s t

-- The order of `<` and `>`: by code unit, a proper prefix first.
unfoldable pub compare_texts : Text → Text → Sign
compare_texts [] [] = same
compare_texts [] (b ∷ t) = before
compare_texts (a ∷ s) [] = after
compare_texts (a ∷ s) (b ∷ t) = compare_numbers a b then_by compare_texts s t

unfoldable pub starts_with : Text → Text → Bool
starts_with s [] = true
starts_with [] (b ∷ t) = false
starts_with (a ∷ s) (b ∷ t) = a == b && starts_with s t

-- `includes`
unfoldable pub text_includes : Text → Text → Bool
unfolding starts_with
text_includes [] t = starts_with [] t
text_includes (a ∷ s) t = starts_with (a ∷ s) t || text_includes s t

-- `parts.join(separator)`, of a separator of one code unit.
unfoldable pub join_with : ℕ → List Text → Text
join_with separator [] = []
join_with separator (segment ∷ []) = segment
join_with separator (segment ∷ next ∷ segments) =
    segment ++ separator ∷ join_with separator (next ∷ segments)

pub text_eq_iff : (s t : Text) → (text_eq s t ≡ true) ↔ (s ≡ t)
unfolding text_eq
text_eq_iff [] [] = ((λ h. refl), (λ h. refl))
text_eq_iff [] (b ∷ t) = ground arith
text_eq_iff (a ∷ s) [] = ground arith
text_eq_iff (a ∷ s) (b ∷ t) = ground (arith, text_eq_iff s t)

pub text_eq_refl : (s : Text) → text_eq s s ≡ true
text_eq_refl s = (text_eq_iff s s).1 refl

pub text_eq_comm : (s t : Text) → text_eq s t ≡ text_eq t s
unfolding text_eq
text_eq_comm [] [] = refl
text_eq_comm [] (b ∷ t) = refl
text_eq_comm (a ∷ s) [] = refl
text_eq_comm (a ∷ s) (b ∷ t) = ground (arith, text_eq_comm s t)

pub compare_texts-flip : (s t : Text) → compare_texts t s ≡ flip_sign (compare_texts s t)
unfolding compare_texts
compare_texts-flip [] [] = refl
compare_texts-flip [] (b ∷ t) = refl
compare_texts-flip (a ∷ s) [] = refl
compare_texts-flip (a ∷ s) (b ∷ t) = ground (arith, compare_texts-flip s t)

pub compare_texts-same : (s t : Text) → compare_texts s t ≡ same → s ≡ t
unfolding compare_texts
compare_texts-same [] [] h = refl
compare_texts-same [] (b ∷ t) h = ground arith
compare_texts-same (a ∷ s) [] h = ground arith
compare_texts-same (a ∷ s) (b ∷ t) h = ground (arith, compare_texts-same s t)

-- Texts that are equal compare alike.
pub text_left : (i j k : Text) → text_eq i j ≡ true → text_eq i k ≡ text_eq j k
text_left i j k h = ap (λ x. text_eq x k) ((text_eq_iff i j).0 h)

pub text_right : (i j k : Text) → text_eq j k ≡ true → text_eq i j ≡ text_eq i k
text_right i j k h = ap (λ x. text_eq i x) ((text_eq_iff j k).0 h)
