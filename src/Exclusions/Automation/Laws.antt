-- ===== src/Exclusions/Automation/Laws.antt =====
-- packages/shared/src/exclusions/automation.ts: tokens that stand as words of their own.
use growthmind.Prelude.{
  last_or, ||-true, ℕ, ◌≡◌, ◌↔◌, refl, ap, Text, Bool, true, false, not, ◌||◌, Option, none, some,
  [], ◌∷◌, ◌++◌, length, drop, head?, is_empty, starts_with, arith, Bool-cases, inl, inr,
  &&-eq-true, if◌then◌else◌,
}
use growthmind.Platform.{Platform}
use growthmind.Exclusions.Automation.{is_alphanumeric, token_here, token_from, matches_token}

-- The token stands somewhere in the text, and neither neighbour is a letter or a digit.
abbrev pub StandsAlone : Text → Option ℕ → Text → Type 0
StandsAlone needle before haystack =
    (pre : Text) × (post : Text) × (haystack ≡ pre ++ (needle ++ post))
    × (is_alphanumeric (last_or before pre) ≡ false)
    × (is_alphanumeric (head? post) ≡ false)

starts_with-append : (s t : Text) → starts_with (t ++ s) t ≡ true
unfolding starts_with
starts_with-append s [] = refl
starts_with-append s (c ∷ t) = ground (arith, starts_with-append s t)

starts_with-drop : (s t : Text) → starts_with s t ≡ true → s ≡ t ++ drop (length t) s
unfolding starts_with
starts_with-drop s [] h = refl
starts_with-drop [] (c ∷ t) h = cc
starts_with-drop (d ∷ s) (c ∷ t) h = ground (arith, starts_with-drop s t)

drop-append : (s t : Text) → drop (length t) (t ++ s) ≡ s
drop-append s [] = refl
drop-append s (c ∷ t) = drop-append s t

not-eq-true : (b : Bool) → not b ≡ true → b ≡ false
not-eq-true b h = ground arith

token_from_sound :
    (needle : Text) (before : Option ℕ) (haystack : Text)
    → token_from needle before haystack ≡ true
    → StandsAlone needle before haystack
unfolding token_from
token_from_sound needle before [] h = cc
token_from_sound needle before (c ∷ s) h = elim (Bool-cases (token_here needle before (c ∷ s))) [
  | inl here ↦
      let (starts, beside) = &&-eq-true (starts_with (c ∷ s) needle) _ here in
      let (left, right) = &&-eq-true (not (is_alphanumeric before)) _ beside in
      (
        [],
        drop (length needle) (c ∷ s),
        starts_with-drop (c ∷ s) needle starts,
        not-eq-true _ left,
        not-eq-true _ right,
      )
  | inr later ↦
      let (pre, post, e, left, right) = token_from_sound needle (some c) s (rw later at h) in
      (c ∷ pre, post, ap (λ t. c ∷ t) e, left, right)
]

token_here-alone :
    (needle : Text) (before : Option ℕ) (post : Text)
    → is_alphanumeric before ≡ false
    → is_alphanumeric (head? post) ≡ false
    → token_here needle before (needle ++ post) ≡ true
token_here-alone needle before post left right =
    rw (starts_with-append post needle, left, drop-append post needle, right)

token_from_complete :
    (n : ℕ) (needle : Text) (before : Option ℕ) (pre post : Text)
    → is_alphanumeric (last_or before pre) ≡ false
    → is_alphanumeric (head? post) ≡ false
    → token_from (n ∷ needle) before (pre ++ (n ∷ needle ++ post)) ≡ true
unfolding token_from
token_from_complete n needle before [] post left right =
    rw (token_here-alone (n ∷ needle) before post left right)
token_from_complete n needle before (c ∷ pre) post left right =
    rw (token_from_complete n needle (some c) pre post left right)
      (||-true (token_here (n ∷ needle) before (c ∷ pre ++ (n ∷ needle ++ post))))

token_from_iff :
    (n : ℕ) (needle : Text) (haystack : Text)
    → (token_from (n ∷ needle) none haystack ≡ true) ↔ StandsAlone (n ∷ needle) none haystack
token_from_iff n needle haystack = (
  (λ h. token_from_sound (n ∷ needle) none haystack h),
  λ (pre, post, e, left, right). rw e (token_from_complete n needle none pre post left right),
)

no_place : (n : ℕ) (needle : Text) → StandsAlone (n ∷ needle) none [] → false ≡ true
no_place n needle ([], post, e, left, right) = cc
no_place n needle (c ∷ pre, post, e, left, right) = cc

matches_cases :
    (haystack needle : Text)
    → is_empty needle ≡ false
    → ((if is_empty haystack || is_empty needle then false else token_from needle none haystack)
        ≡ true)
      ↔ StandsAlone needle none haystack
matches_cases haystack [] h = cc
matches_cases [] (n ∷ needle) h = ((λ e. cc), no_place n needle)
matches_cases (c ∷ haystack) (n ∷ needle) h = token_from_iff n needle (c ∷ haystack)

-- A token that is not empty fires on a user agent exactly if, in lower case, it stands in it with no
-- letter or digit beside it.
pub matches_token_iff :
    (W : Platform) (user_agent token : Text)
    → is_empty (W.to_lower_case token) ≡ false
    → (matches_token W user_agent token ≡ true)
      ↔ StandsAlone (W.to_lower_case token) none (W.to_lower_case user_agent)
unfolding matches_token
matches_token_iff W user_agent token h =
    matches_cases (W.to_lower_case user_agent) (W.to_lower_case token) h
