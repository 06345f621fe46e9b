-- ===== src/Detect/ErrorEvent/Sizes.antt =====
-- packages/core/src/detect/error-event.ts: the sessions that the groups of exceptions name.
use growthmind.Prelude.{
  ℕ, suc, ◌+◌, ◌≤◌, ◌≡◌, refl, ◌⊎◌, inl, inr, Text, text_eq, text_eq_refl, Bool, true, false,
  Option, none, some, List, [], ◌∷◌, length, map_get, set_add, set_has, AllValues,
  AllValues-map_set, AllValues-map_get, AllValues-imply, length-set_add, set_has-set_add, arith,
  if◌then◌else◌,
}
use growthmind.Rules.{ThresholdRuleSet}
use growthmind.Detect.Types.{TimelineEvent, SessionTimeline}
use growthmind.Detect.Order.{order_timeline}
use growthmind.Detect.ErrorEvent.{
  DraftSignal, draft_correlated, draft_uncorrelated, SurfaceGroup, Attribution, add_draft,
  group_or_empty, record_exception, collect_events, collect_session, collect_sessions,
  attribution_of, signal_for, next_preceding, next_groups,
}

-- With `n` sessions read before the one at hand: a set has that many ids at most, or one more if
-- the id at hand is in it.
abbrev Fits : ℕ → Text → List Text → Type 0
Fits n id ids = (length ids ≤ n) ⊎ ((length ids ≤ suc n) × (set_has text_eq id ids ≡ true))

Fits-set_add :
    (n : ℕ) (id : Text) (ids : List Text) → Fits n id ids → Fits n id (set_add text_eq id ids)
Fits-set_add n id ids (inl h) = inr (
  ground (arith, length-set_add text_eq id ids),
  set_has-set_add text_eq id (text_eq_refl id) ids,
)
Fits-set_add n id ids (inr h) = inr (
  ground (arith, length-set_add text_eq id ids),
  set_has-set_add text_eq id (text_eq_refl id) ids,
)

record GroupFits (n : ℕ) (id : Text) (group : SurfaceGroup) : Type 0 where
  affected : Fits n id group.session_ids
  correlated : Fits n id group.correlated_session_ids

add_draft-GroupFits :
    (n : ℕ) (id : Text) (draft : DraftSignal) (version : Option ℕ) (group : SurfaceGroup)
    → GroupFits n id group
    → GroupFits n id (add_draft id draft version group)
add_draft-GroupFits n id (draft_correlated _ _ _ _) version group h = record {
  affected = Fits-set_add n id group.session_ids h.affected;
  correlated = Fits-set_add n id group.correlated_session_ids h.correlated;
}
add_draft-GroupFits n id (draft_uncorrelated _ _) version group h = record {
  affected = Fits-set_add n id group.session_ids h.affected;
  correlated = h.correlated;
}

group_or_empty-GroupFits :
    (n : ℕ) (id : Text) (found : Option SurfaceGroup)
    → ((group : SurfaceGroup) → found ≡ some group → GroupFits n id group)
    → GroupFits n id (group_or_empty found)
group_or_empty-GroupFits n id none h = record {
  affected = inl (omega arith);
  correlated = inl (omega arith);
}
group_or_empty-GroupFits n id (some group) h = h group refl

record_exception-GroupFits :
    (n : ℕ) (id : Text) (rules : ThresholdRuleSet) (event : TimelineEvent) (a : Option Attribution)
    (draft : DraftSignal) (groups : List (Text × SurfaceGroup))
    → AllValues (GroupFits n id) groups
    → AllValues (GroupFits n id) (record_exception id rules event a draft groups)
unfolding record_exception
record_exception-GroupFits n id rules event none draft groups h = h
record_exception-GroupFits n id rules event (some a) draft groups h =
    AllValues-map_set text_eq (GroupFits n id) a.surface _ groups h (
      add_draft-GroupFits n id draft a.normalisation_version _ (
        group_or_empty-GroupFits n id (map_get text_eq a.surface groups)
          (λ group e. AllValues-map_get text_eq (GroupFits n id) a.surface groups h e)))

AllValues-if :
    (P : SurfaceGroup → Type 0) (b : Bool) (x y : List (Text × SurfaceGroup))
    → AllValues P x
    → AllValues P y
    → AllValues P (if b then x else y)
AllValues-if P true x y p q = p
AllValues-if P false x y p q = q

next_groups-GroupFits :
    (n : ℕ) (id : Text) (rules : ThresholdRuleSet) (preceding : Option TimelineEvent)
    (event : TimelineEvent) (groups : List (Text × SurfaceGroup))
    → AllValues (GroupFits n id) groups
    → AllValues (GroupFits n id) (next_groups id rules preceding event groups)
unfolding next_groups
next_groups-GroupFits n id rules preceding event groups h =
    AllValues-if (GroupFits n id) (text_eq event.name rules.exception_event_name) _ groups
      (record_exception-GroupFits n id rules event (attribution_of event preceding)
        (signal_for event preceding rules) groups h)
      h

collect_events-GroupFits :
    (n : ℕ) (id : Text) (rules : ThresholdRuleSet) (preceding : Option TimelineEvent)
    (events : List TimelineEvent) (groups : List (Text × SurfaceGroup))
    → AllValues (GroupFits n id) groups
    → AllValues (GroupFits n id) (collect_events id rules preceding events groups)
unfolding collect_events
collect_events-GroupFits n id rules preceding [] groups h = h
collect_events-GroupFits n id rules preceding (event ∷ events) groups h =
    collect_events-GroupFits n id rules (next_preceding rules preceding event) events
      (next_groups id rules preceding event groups)
      (next_groups-GroupFits n id rules preceding event groups h)

pub record GroupWithin (n : ℕ) (group : SurfaceGroup) : Type 0 where
  pub affected_within : length group.session_ids ≤ n
  pub correlated_within : length group.correlated_session_ids ≤ n

collect_session-GroupWithin :
    (n : ℕ) (session : SessionTimeline) (rules : ThresholdRuleSet)
    (groups : List (Text × SurfaceGroup))
    → AllValues (GroupWithin n) groups
    → AllValues (GroupWithin (suc n)) (collect_session session rules groups)
unfolding collect_session
collect_session-GroupWithin n session rules groups h =
    let id = session.session_id in
    AllValues-imply (GroupFits n id) (GroupWithin (suc n)) _
      (λ group fits. ground (arith, fits.affected, fits.correlated))
      (collect_events-GroupFits n id rules none (order_timeline session.events) groups (
        AllValues-imply (GroupWithin n) (GroupFits n id) groups
          (λ group within. record {
            affected = inl within.affected_within;
            correlated = inl within.correlated_within;
          })
          h))

-- After reading `sessions` on top of `n` others, no group names more sessions than were read.
pub collect_sessions-GroupWithin :
    (n : ℕ) (sessions : List SessionTimeline) (rules : ThresholdRuleSet)
    (groups : List (Text × SurfaceGroup)) (m : ℕ)
    → n + length sessions ≡ m
    → AllValues (GroupWithin n) groups
    → AllValues (GroupWithin m) (collect_sessions sessions rules groups)
unfolding collect_sessions
collect_sessions-GroupWithin n [] rules groups m e h = let e' : n ≡ m = omega arith in rw (← e') h
collect_sessions-GroupWithin n (session ∷ sessions) rules groups m e h =
    collect_sessions-GroupWithin (suc n) sessions rules _ m (omega arith)
      (collect_session-GroupWithin n session rules groups h)
