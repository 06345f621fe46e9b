-- ===== src/Regex/Progress.antt =====
-- The places where matches of a regular expression end.
use growthmind.Prelude.{
  ap, subst, ℕ, zero, suc, ◌≤◌, ◌≡◌, Bool, true, false, Option, none, some, List, [], ◌∷◌, ◌++◌,
  All, length, not, is_empty, ◌==◌, Text, arith, ◌-◌,
}
use growthmind.Regex.{
  Place, Regex, unit, seq, either, repeat, at_least, behind, word_boundary, ahead, not_ahead, Match,
  when, after_each, rounds, step_unit, ends, first_match, find_match, differ, is_word_beside,
  first_unit,
}

-- No more of the text is left than `n` units.
abbrev pub LeavesAtMost : ℕ → Place → Type 0
LeavesAtMost n place = length place.rest ≤ n

All-append :
    (n : ℕ) (xs ys : List Place)
    → All (LeavesAtMost n) xs
    → All (LeavesAtMost n) ys
    → All (LeavesAtMost n) (xs ++ ys)
All-append n [] ys h k = k
All-append n (x ∷ xs) ys h k = (h.0, All-append n xs ys h.1 k)

when-All :
    (n : ℕ) (b : Bool) (place : Place) → LeavesAtMost n place → All (LeavesAtMost n) (when b place)
when-All n true place h = (h, tt)
when-All n false place h = tt

after_each-All :
    (n : ℕ) (f : Place → List Place) (places : List Place)
    → ((p : Place) → LeavesAtMost n p → All (LeavesAtMost n) (f p))
    → All (LeavesAtMost n) places
    → All (LeavesAtMost n) (after_each f places)
unfolding after_each
after_each-All n f [] keeps h = tt
after_each-All n f (p ∷ places) keeps h =
    All-append n (f p) (after_each f places) (keeps p h.0) (after_each-All n f places keeps h.1)

rounds-All :
    (n : ℕ) (f : Place → List Place)
    → ((p : Place) → LeavesAtMost n p → All (LeavesAtMost n) (f p))
    → (least most : ℕ) (place : Place) → LeavesAtMost n place
    → All (LeavesAtMost n) (rounds f least most place)
unfolding rounds
rounds-All n f keeps least zero place h = when-All n (least == 0) place h
rounds-All n f keeps least (suc most) place h =
    All-append n (after_each (rounds f (least - 1) most) (f place)) (when (least == 0) place)
      (after_each-All n (rounds f (least - 1) most) (f place)
        (λ p k. rounds-All n f keeps (least - 1) most p k) (keeps place h))
      (when-All n (least == 0) place h)

step_unit-All :
    (n : ℕ) (p : ℕ → Bool) (s : Text) → length s ≤ n → All (LeavesAtMost n) (step_unit p s)
step_unit-All n p [] h = tt
step_unit-All n p (c ∷ s) h = when-All n (p c) (record { before = some c; rest = s }) (omega arith)

pub ends-LeavesAtMost :
    (n : ℕ) (r : Regex) (place : Place) → LeavesAtMost n place → All (LeavesAtMost n) (ends r place)
unfolding ends
ends-LeavesAtMost n (unit p) place h = step_unit-All n p place.rest h
ends-LeavesAtMost n (seq r s) place h =
    after_each-All n (ends s) (ends r place) (λ p k. ends-LeavesAtMost n s p k)
      (ends-LeavesAtMost n r place h)
ends-LeavesAtMost n (either r s) place h =
    All-append n (ends r place) (ends s place) (ends-LeavesAtMost n r place h)
      (ends-LeavesAtMost n s place h)
ends-LeavesAtMost n (repeat least most r) place h =
    rounds-All n (ends r) (λ p k. ends-LeavesAtMost n r p k) least most place h
ends-LeavesAtMost n (at_least least r) place h =
    rounds-All n (ends r) (λ p k. ends-LeavesAtMost n r p k) least (length place.rest) place h
ends-LeavesAtMost n (behind test) place h = when-All n (test place.before) place h
ends-LeavesAtMost n word_boundary place h =
    when-All n (differ (is_word_beside place.before) (is_word_beside (first_unit place.rest))) place
      h
ends-LeavesAtMost n (ahead r) place h = when-All n (not (is_empty (ends r place))) place h
ends-LeavesAtMost n (not_ahead r) place h = when-All n (is_empty (ends r place)) place h

-- A match that was found starts no earlier than asked for, and ends no earlier than it starts.
abbrev pub IsForward : ℕ → Match → Type 0
IsForward n m = (length m.start.rest ≤ n) × (length m.end.rest ≤ length m.start.rest)

same_match : {a b : Match} → some a ≡ some b → a ≡ b
same_match {a} {b} e = ap (λ (o : Option Match). elim o [ none ↦ a | some m ↦ m ]) e

first_match-IsForward :
    (n : ℕ) (place : Place) (places : List Place) (later : Option Match) {m : Match}
    → length place.rest ≤ n
    → All (LeavesAtMost (length place.rest)) places
    → ((k : Match) → later ≡ some k → IsForward n k)
    → first_match place places later ≡ some m
    → IsForward n m
first_match-IsForward n place [] later {m} h l f e = f m e
first_match-IsForward n place (end ∷ places) later h l f e =
    subst (IsForward n) (same_match e) (h, l.0)

pub find_match-IsForward :
    (n : ℕ) (r : Regex) (before : Option ℕ) (s : Text) {m : Match}
    → length s ≤ n
    → find_match r before s ≡ some m
    → IsForward n m
unfolding find_match
find_match-IsForward n r before [] h e =
    let place : Place = record { before = before; rest = [] } in
    first_match-IsForward n place (ends r place) none h (ends-LeavesAtMost 0 r place (omega arith))
      (λ k impossible. cc) e
find_match-IsForward n r before (c ∷ s) h e =
    let place : Place = record { before = before; rest = c ∷ s } in
    first_match-IsForward n place (ends r place) (find_match r (some c) s) h
      (ends-LeavesAtMost (length (c ∷ s)) r place (omega arith))
      (λ k found. find_match-IsForward n r (some c) s (omega arith) found) e
