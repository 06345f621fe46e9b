-- ===== src/Regex/Laws.antt =====
-- The search for the first match of a regular expression.
use growthmind.Prelude.{ℕ, ◌≡◌, ◌↔◌, refl, Text, Option, none, some, List, [], ◌∷◌}
use growthmind.Regex.{Place, Regex, Match, ends, first_match, find_match}

-- The pattern matches at none of the places of the text, its end included.
abbrev pub MatchesNowhere : Regex → Option ℕ → Text → Type 0
MatchesNowhere r before [] = ends r (record { before = before; rest = [] }) ≡ []
MatchesNowhere r before (c ∷ s) =
    (ends r (record { before = before; rest = c ∷ s }) ≡ []) × MatchesNowhere r (some c) s

first_match-eq-none :
    (place : Place) (places : List Place) (later : Option Match)
    → first_match place places later ≡ none
    → (places ≡ []) × (later ≡ none)
first_match-eq-none place [] later h = (refl, h)
first_match-eq-none place (end ∷ places) later h = cc

find_match-nowhere :
    (r : Regex) (before : Option ℕ) (s : Text)
    → find_match r before s ≡ none
    → MatchesNowhere r before s
unfolding find_match
find_match-nowhere r before [] h =
    (first_match-eq-none _ (ends r (record { before = before; rest = [] })) none h).0
find_match-nowhere r before (c ∷ s) h =
    let (here, later) =
      first_match-eq-none _ (ends r (record { before = before; rest = c ∷ s })) _ h in
    (here, find_match-nowhere r (some c) s later)

nowhere-find_match :
    (r : Regex) (before : Option ℕ) (s : Text)
    → MatchesNowhere r before s
    → find_match r before s ≡ none
unfolding find_match
nowhere-find_match r before [] h = rw h refl
nowhere-find_match r before (c ∷ s) h = rw h.0 (nowhere-find_match r (some c) s h.1)

pub find_match-none_iff :
    (r : Regex) (before : Option ℕ) (s : Text)
    → (find_match r before s ≡ none) ↔ MatchesNowhere r before s
find_match-none_iff r before s = (find_match-nowhere r before s, nowhere-find_match r before s)
