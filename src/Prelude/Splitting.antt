-- ===== src/Prelude/Splitting.antt =====
-- White space and character classes of the language's regular expressions, `trim`, and `split` by a
-- separator of one code unit, with what joining and splitting do to each other.
use Prim.Native.Nat.{ℕ}
use mathlib.Core.Path.{sym, ◌≡◌, refl, ap, ◌∙◌}
use mathlib.Core.Logic.{inl, inr}
use mathlib.Core.Option.{Option, some}
use mathlib.Core.List.{List, [], ◌∷◌, ◌++◌}
use mathlib.Core.Bool.{Bool, true, false, ◌&&◌, ◌||◌}
use native.Mathlib.Omega.{arith}
use growthmind.Prelude.Tests.{==_iff, leb, ◌==◌, if◌then◌else◌, Bool-cases}
use growthmind.Prelude.Lists.{length, All, is_empty}
use growthmind.Prelude.Texts.{Text, join_with}

abbrev pub in_range : ℕ → ℕ → ℕ → Bool
in_range low high c = leb low c && leb c high

-- What `trim` takes away: the language's white space and line terminators.
abbrev pub is_white_space : ℕ → Bool
is_white_space c =
    in_range 9 13 c
    || (c == 32
        || (c == 160
            || (c == 5_760
                || (in_range 8_192 8_202 c
                    || (c == 8_232
                        || (c == 8_233
                            || (c == 8_239 || (c == 8_287 || (c == 12_288 || c == 65_279)))))))))

unfoldable pub trim_start : Text → Text
trim_start [] = []
trim_start (c ∷ s) = let rest = trim_start s in if is_white_space c then rest else c ∷ s

unfoldable pub trim_end : Text → Text
trim_end [] = []
trim_end (c ∷ s) =
    let rest = trim_end s in if is_empty rest && is_white_space c then [] else c ∷ rest

abbrev pub trim : Text → Text
trim s = trim_end (trim_start s)

-- `text.split(separator)[0]`, of a separator of one code unit.
unfoldable pub before_first : ℕ → Text → Text
before_first separator [] = []
before_first separator (c ∷ s) =
    let rest = before_first separator s in if c == separator then [] else c ∷ rest

abbrev pub onto_first : ℕ → List Text → List Text
onto_first c [] = (c ∷ []) ∷ []
onto_first c (segment ∷ segments) = (c ∷ segment) ∷ segments

unfoldable pub split_on : ℕ → Text → List Text
split_on separator [] = [] ∷ []
split_on separator (c ∷ s) =
    let rest = split_on separator s in if c == separator then [] ∷ rest else onto_first c rest

abbrev pub is_digit : ℕ → Bool
is_digit c = in_range 48 57 c

abbrev pub is_hex : ℕ → Bool
is_hex c = is_digit c || (in_range 97 102 c || in_range 65 70 c)

abbrev pub is_upper : ℕ → Bool
is_upper c = in_range 65 90 c

abbrev pub Lacks : ℕ → Text → Type 0
Lacks separator s = All (λ c. (c == separator) ≡ false) s

-- A text without the separator is one segment, and it precedes what follows its separator.
pub split_on-segment :
    (separator : ℕ) (s rest : Text)
    → Lacks separator s
    → split_on separator (s ++ separator ∷ rest) ≡ s ∷ split_on separator rest
unfolding split_on
split_on-segment separator [] rest h = ground arith
split_on-segment separator (c ∷ s) rest h = rw (h.0, split_on-segment separator s rest h.1)

pub split_on-single : (separator : ℕ) (s : Text) → Lacks separator s → split_on separator s ≡ s ∷ []
unfolding split_on
split_on-single separator [] h = refl
split_on-single separator (c ∷ s) h = rw (h.0, split_on-single separator s h.1)

-- Splitting takes back what joining did to segments without the separator.
pub split_on-join_with :
    (separator : ℕ) (segment : Text) (segments : List Text)
    → All (Lacks separator) (segment ∷ segments)
    → split_on separator (join_with separator (segment ∷ segments)) ≡ segment ∷ segments
unfolding join_with
split_on-join_with separator segment [] h = split_on-single separator segment h.0
split_on-join_with separator segment (next ∷ segments) h =
    split_on-segment separator segment (join_with separator (next ∷ segments)) h.0
    ∙ ap (λ ss. segment ∷ ss) (split_on-join_with separator next segments h.1)

Lacks-onto_first :
    (separator c : ℕ) (segments : List Text)
    → (c == separator) ≡ false
    → All (Lacks separator) segments
    → All (Lacks separator) (onto_first c segments)
Lacks-onto_first separator c [] h hs = ((h, tt), tt)
Lacks-onto_first separator c (s ∷ ss) h hs = ((h, hs.0), hs.1)

pub split_on-Lacks : (separator : ℕ) (s : Text) → All (Lacks separator) (split_on separator s)
unfolding split_on
split_on-Lacks separator [] = (tt, tt)
split_on-Lacks separator (c ∷ s) = elim (Bool-cases (c == separator)) [
  | inl e ↦ rw e (tt, split_on-Lacks separator s)
  | inr e ↦
      rw e (Lacks-onto_first separator c (split_on separator s) e (split_on-Lacks separator s))
]

pub split_on_filled : (separator : ℕ) (s : Text) → is_empty (split_on separator s) ≡ false
unfolding split_on
split_on_filled separator [] = refl
split_on_filled separator (c ∷ s) = ground arith

join_with-onto_first :
    (separator c : ℕ) (segments : List Text)
    → is_empty segments ≡ false
    → join_with separator (onto_first c segments) ≡ c ∷ join_with separator segments
unfolding join_with
join_with-onto_first separator c [] h = cc
join_with-onto_first separator c (s ∷ []) h = refl
join_with-onto_first separator c (s ∷ next ∷ ss) h = refl

join_with-empty :
    (separator : ℕ) (segments : List Text)
    → is_empty segments ≡ false
    → join_with separator ([] ∷ segments) ≡ separator ∷ join_with separator segments
unfolding join_with
join_with-empty separator [] h = cc
join_with-empty separator (s ∷ ss) h = refl

-- Joining takes back what splitting did.
pub join_with-split_on : (separator : ℕ) (s : Text) → join_with separator (split_on separator s) ≡ s
unfolding split_on
join_with-split_on separator [] = unfold join_with in refl
join_with-split_on separator (c ∷ s) = elim (Bool-cases (c == separator)) [
  | inl e ↦
      rw
        (
          e,
          join_with-empty separator (split_on separator s) (split_on_filled separator s),
          join_with-split_on separator s,
        )
        (ap (λ d. d ∷ s) (sym ((==_iff c separator).0 e)))
  | inr e ↦ rw (
    e,
    join_with-onto_first separator c (split_on separator s) (split_on_filled separator s),
    join_with-split_on separator s,
  )
]

pub length-onto_first :
    (c : ℕ) (segments : List Text)
    → is_empty segments ≡ false
    → length (onto_first c segments) ≡ length segments
length-onto_first c [] h = cc
length-onto_first c (s ∷ ss) h = refl

pub split_on-stop :
    (separator c : ℕ) (s : Text)
    → (c == separator) ≡ true
    → split_on separator (c ∷ s) ≡ [] ∷ split_on separator s
unfolding split_on
split_on-stop separator c s h = rw h

pub split_on-other :
    (separator c : ℕ) (s : Text)
    → (c == separator) ≡ false
    → split_on separator (c ∷ s) ≡ onto_first c (split_on separator s)
unfolding split_on
split_on-other separator c s h = rw h

-- A text that `trim_start` leaves alone.
abbrev StartsVisible : Text → Type 0
StartsVisible [] = Unit
StartsVisible (c ∷ s) = is_white_space c ≡ false

trim_start-StartsVisible : (s : Text) → StartsVisible (trim_start s)
unfolding trim_start
trim_start-StartsVisible [] = tt
trim_start-StartsVisible (c ∷ s) = elim (Bool-cases (is_white_space c)) [
  | inl e ↦ rw e (trim_start-StartsVisible s)
  | inr e ↦ rw e e
]

trim_end-StartsVisible : (s : Text) → StartsVisible s → StartsVisible (trim_end s)
unfolding trim_end
trim_end-StartsVisible [] h = tt
trim_end-StartsVisible (c ∷ s) h = elim (Bool-cases (is_empty (trim_end s))) [
  | inl e ↦ rw (e, h) h
  | inr e ↦ rw e h
]

trim_start-visible : (s : Text) → StartsVisible s → trim_start s ≡ s
unfolding trim_start
trim_start-visible [] h = refl
trim_start-visible (c ∷ s) h = rw h

trim_end-trim_end : (s : Text) → trim_end (trim_end s) ≡ trim_end s
unfolding trim_end
trim_end-trim_end [] = refl
trim_end-trim_end (c ∷ s) = ground (arith, trim_end-trim_end s)

pub trim-trim : (s : Text) → trim (trim s) ≡ trim s
trim-trim s =
    ap trim_end (
      trim_start-visible (trim s)
        (trim_end-StartsVisible (trim_start s) (trim_start-StartsVisible s)))
    ∙ trim_end-trim_end (trim_start s)

-- The unit before a place: the last one of what stands before it, or `before` itself.
abbrev pub last_or : Option ℕ → Text → Option ℕ
last_or before [] = before
last_or before (c ∷ s) = last_or (some c) s
