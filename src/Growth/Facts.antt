-- ===== src/Growth/Facts.antt =====
-- packages/shared/src/growth/business.ts and packages/core/src/growth/confirm-fact.ts and
-- research-merge.ts: the facts that a business is known by. Each fact of a list is an object of its own,
-- so `fact === target` holds of the first match alone.
pub mod Remaining
pub mod Laws
use growthmind.Prelude.{
  ℕ, suc, ◌+◌, ◌≤◌, ◌≡◌, ◌≢◌, refl, Text, text_eq, Bool, true, false, not, ◌&&◌, Option, none, some,
  List, [], ◌∷◌, ◌++◌, filter, any, all, find?, take, length, leb, ◌==◌, if◌then◌else◌, map_get,
  map_set, arith, Bool-cases, inl, inr, All,
}

pub data BusinessFactKind : Type 0 where
  regime forbidden_move load_bearing_friction conversion conversion_disqualifier invalidating_period
        who_counts decision_cadence stake_and_reversibility arrives_expecting catalogue_scale
        staleness_tolerance :
      BusinessFactKind

abbrev pub kind_index : BusinessFactKind → ℕ
kind_index regime = 0
kind_index forbidden_move = 1
kind_index load_bearing_friction = 2
kind_index conversion = 3
kind_index conversion_disqualifier = 4
kind_index invalidating_period = 5
kind_index who_counts = 6
kind_index decision_cadence = 7
kind_index stake_and_reversibility = 8
kind_index arrives_expecting = 9
kind_index catalogue_scale = 10
kind_index staleness_tolerance = 11

abbrev pub same_fact_kind : BusinessFactKind → BusinessFactKind → Bool
same_fact_kind a b = kind_index a == kind_index b

pub data FactSource : Type 0 where
  site sessions stated_by_customer : FactSource

pub record FactConfirmation : Type 0 where
  pub at : ℕ
  pub by : Option Text

-- `Audience` stands for the audience proposal of growth/audience.ts, which is carried along.
pub record BusinessFact (Audience : Type 0) : Type 0 where
  pub kind : BusinessFactKind
  pub statement : Text
  pub source : FactSource
  pub corrected_from : Option Text
  pub audience : Option Audience
  pub confirmation : Option FactConfirmation

abbrev pub business_fact_limit : ℕ
business_fact_limit = 48

abbrev pub facts_per_kind_max : ℕ
facts_per_kind_max = 4

abbrev pub so_far : Option ℕ → ℕ
so_far none = 0
so_far (some n) = n

pub data ConfirmOutcome : Type 0 where
  confirmed already_confirmed not_found : ConfirmOutcome

abbrev is_site : FactSource → Bool
is_site site = true
is_site _ = false

abbrev is_given : {A : Type 0} → Option A → Bool
is_given none = false
is_given (some _) = true

pub record BusinessContext (Audience : Type 0) : Type 0 where
  pub facts : List (BusinessFact Audience)
  pub removed : List Text

abbrev answered_by : Option Text → Text → List Text
answered_by none statement = statement ∷ []
answered_by (some before) statement = statement ∷ before ∷ []

module _ {Audience : Type 0} where
  -- The `filter` with the `Map` that it fills.
  unfoldable pub cap_loop :
      List (BusinessFact Audience) → List (BusinessFactKind × ℕ) → List (BusinessFact Audience)
  unfolding map_get map_set
  cap_loop [] kept = []
  cap_loop (fact ∷ facts) kept =
      let n = so_far (map_get same_fact_kind fact.kind kept) in
      let dropped = cap_loop facts kept in
      let taken = cap_loop facts (map_set same_fact_kind fact.kind (n + 1) kept) in
      if leb facts_per_kind_max n then dropped else fact ∷ taken

  unfoldable pub cap_facts_per_kind : List (BusinessFact Audience) → List (BusinessFact Audience)
  unfolding cap_loop
  cap_facts_per_kind facts = cap_loop facts []

  abbrev pub is_fact : BusinessFactKind → Text → BusinessFact Audience → Bool
  is_fact kind statement fact = same_fact_kind fact.kind kind && text_eq fact.statement statement

  -- `facts.map((fact) => fact === target ? { ...fact, confirmation } : fact)`
  unfoldable pub confirm_first :
      BusinessFactKind
      → Text
      → FactConfirmation
      → List (BusinessFact Audience)
      → List (BusinessFact Audience)
  unfolding text_eq
  confirm_first kind statement confirmation [] = []
  confirm_first kind statement confirmation (fact ∷ facts) =
      let rest = confirm_first kind statement confirmation facts in
      if is_fact kind statement fact
      then record fact { confirmation = some confirmation } ∷ facts
      else fact ∷ rest

  abbrev outcome_of :
      Option FactConfirmation
      → List (BusinessFact Audience)
      → List (BusinessFact Audience)
      → ConfirmOutcome × List (BusinessFact Audience)
  outcome_of none facts changed = (confirmed, changed)
  outcome_of (some _) facts changed = (already_confirmed, facts)

  abbrev target_outcome :
      Option (BusinessFact Audience)
      → List (BusinessFact Audience)
      → List (BusinessFact Audience)
      → ConfirmOutcome × List (BusinessFact Audience)
  target_outcome none facts changed = (not_found, facts)
  target_outcome (some target) facts changed = outcome_of target.confirmation facts changed

  unfoldable pub confirm_in_facts :
      List (BusinessFact Audience)
      → BusinessFactKind
      → Text
      → FactConfirmation
      → ConfirmOutcome × List (BusinessFact Audience)
  unfolding confirm_first text_eq
  confirm_in_facts facts kind statement confirmation =
      target_outcome (find? (is_fact kind statement) facts) facts
        (confirm_first kind statement confirmation facts)

  abbrev pub survives_re_research : BusinessFact Audience → Bool
  survives_re_research fact = if is_site fact.source then is_given fact.confirmation else true

  abbrev pub already_answered : List Text → List (BusinessFact Audience) → List Text
  already_answered removed [] = removed
  already_answered removed (fact ∷ facts) =
      answered_by fact.corrected_from fact.statement ++ already_answered removed facts

  abbrev pub is_new : List Text → BusinessFact Audience → Bool
  is_new answered fact = not (any answered (λ t. text_eq t fact.statement))

  unfoldable pub merge_research :
      BusinessContext Audience → List (BusinessFact Audience) → BusinessContext Audience
  unfolding cap_facts_per_kind text_eq
  merge_research current incoming =
      let kept = filter survives_re_research current.facts in
      record {
        facts = take business_fact_limit (
            cap_facts_per_kind
              (kept ++ filter (is_new (already_answered current.removed kept)) incoming));
        removed = current.removed;
      }

  confirm_first-target :
      (facts : List (BusinessFact Audience)) (kind : BusinessFactKind) (statement : Text)
      (confirmation : FactConfirmation) {target : BusinessFact Audience}
      → find? (is_fact kind statement) facts ≡ some target
      → find? (is_fact kind statement) (confirm_first kind statement confirmation facts)
        ≡ some (record target { confirmation = some confirmation })
  unfolding confirm_first
  confirm_first-target [] kind statement confirmation h = absurd (ground arith)
  confirm_first-target (fact ∷ facts) kind statement confirmation {target} h =
      elim (Bool-cases (is_fact kind statement fact)) [
        | inl e ↦ let same : fact ≡ target = ground arith in rw (e, ← same) (rw e refl)
        | inr e ↦ rw e (
            rw e (
              confirm_first-target facts kind statement confirmation {target = target} (rw e at h)))
      ]

  confirmed_target :
      (found : Option (BusinessFact Audience)) (facts changed later : List (BusinessFact Audience))
      → (target_outcome found facts changed).0 ≡ confirmed
      → ((target_outcome found facts changed).1 ≡ changed)
        × ((target : BusinessFact Audience) × (found ≡ some target))
  confirmed_target none facts changed later h = absurd (ground arith)
  confirmed_target (some target) facts changed later h = (ground arith, (target, refl))

  -- A fact that was just confirmed is not confirmed again: whatever the second confirmation, it answers
  -- that the fact is confirmed already, and leaves the facts as the first one left them.
  pub confirm_in_facts_twice :
      (facts : List (BusinessFact Audience)) (kind : BusinessFactKind) (statement : Text)
      (first second : FactConfirmation)
      → (confirm_in_facts facts kind statement first).0 ≡ confirmed
      → confirm_in_facts (confirm_in_facts facts kind statement first).1 kind statement second
        ≡ (already_confirmed, (confirm_in_facts facts kind statement first).1)
  unfolding confirm_in_facts
  confirm_in_facts_twice facts kind statement first second h =
      let changed : List (BusinessFact Audience) = confirm_first kind statement first facts in
      let (left, found) =
        confirmed_target (find? (is_fact kind statement) facts) facts changed changed h in
      let again = confirm_first-target facts kind statement first {target = found.0} found.1 in
      rw left (rw again refl)
