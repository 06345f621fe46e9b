-- ===== src/Growth/Facts/Remaining.antt =====
-- packages/core/src/growth/research-merge.ts: the facts that a merge of a new research may leave.
use growthmind.Prelude.{
  ◌≡◌, refl, Text, text_eq, text_eq_iff, Bool, true, false, not, Option, none, some, List, [], ◌∷◌,
  ◌++◌, filter, any, All, All-map, All-append, Any, ◌⊎◌, inl, inr, arith, Bool-cases, if◌then◌else◌,
}
use growthmind.Growth.Facts.{
  FactSource, site, sessions, stated_by_customer, FactConfirmation, BusinessFact, BusinessContext,
  survives_re_research, already_answered, answered_by, is_new, is_site, is_given,
}

-- The source of a fact is not the site that is researched.
abbrev pub IsElsewhere : FactSource → Type 0
IsElsewhere site = ⊥
IsElsewhere sessions = Unit
IsElsewhere stated_by_customer = Unit

is_other : (t s : Text) → text_eq t s ≡ false → ¬ (t ≡ s)
is_other t s h e = cc (h, (text_eq_iff t s).1 e)

none_equal :
    (ts : List Text) (s : Text) → not (any ts (λ t. text_eq t s)) ≡ true → All (λ t. ¬ (t ≡ s)) ts
none_equal [] s h = tt
none_equal (t ∷ ts) s h = elim (Bool-cases (text_eq t s)) [
  | inl e ↦ cc (rw e at h)
  | inr e ↦ (is_other t s e, none_equal ts s (rw e at h))
]

-- What a fact that stays answers.
said :
    (o : Option Text) (own statement : Text) (ts : List Text)
    → not (any (answered_by o own ++ ts) (λ t. text_eq t statement)) ≡ true
    → (¬ (own ≡ statement) × ¬ (o ≡ some statement))
      × (not (any ts (λ t. text_eq t statement)) ≡ true)
said none own statement ts h =
    let (first, rest) = head_other own statement ts h in ((first, λ e. cc e), rest)
  where
    head_other :
        (own statement : Text) (ts : List Text)
        → not (any (own ∷ ts) (λ t. text_eq t statement)) ≡ true
        → ¬ (own ≡ statement) × (not (any ts (λ t. text_eq t statement)) ≡ true)
    head_other own statement ts h = elim (Bool-cases (text_eq own statement)) [
      | inl e ↦ cc (rw e at h)
      | inr e ↦ (is_other own statement e, rw e at h)
    ]
said (some before) own statement ts h = elim (Bool-cases (text_eq own statement)) [
  | inl e ↦ cc (rw e at h)
  | inr e ↦ elim (Bool-cases (text_eq before statement)) [
    | inl f ↦ cc (rw (e, f) at h)
    | inr f ↦ (
      (is_other own statement e, λ q. is_other before statement f (ground (arith, q))),
      rw (e, f) at h,
    )
  ]
]

module _ {Audience : Type 0} where
  -- A fact of the context that a new research leaves as it is: it does not come from the site, or a
  -- person confirmed it.
  abbrev pub Stays : BusinessFact Audience → Type 0
  Stays fact = IsElsewhere fact.source ⊎ ((c : FactConfirmation) × (fact.confirmation ≡ some c))

  -- No person removed a statement, and no fact that stays says it or was corrected from it.
  pub record IsUnanswered (current : BusinessContext Audience) (statement : Text) : Type 0 where
    pub not_removed : All (λ t. ¬ (t ≡ statement)) current.removed
    pub not_said :
        All
          (λ (old : BusinessFact Audience).
            Stays old → ¬ (old.statement ≡ statement) × ¬ (old.corrected_from ≡ some statement))
          current.facts

  abbrev pub Within : List (BusinessFact Audience) → BusinessFact Audience → Type 0
  Within facts fact = Any (λ (other : BusinessFact Audience). other ≡ fact) facts

  -- A fact that a merge may leave: one of the context that stays, or an incoming one that is unanswered.
  pub data Belongs (current : BusinessContext Audience) (incoming : List (BusinessFact Audience))
      (fact : BusinessFact Audience) : Type 0 where
    kept : Within current.facts fact → Stays fact → Belongs current incoming fact
    added :
        Within incoming fact → IsUnanswered current fact.statement → Belongs current incoming fact

  survives-Stays : (fact : BusinessFact Audience) → survives_re_research fact ≡ true → Stays fact
  survives-Stays fact h = go fact.source fact.confirmation h
    where
      go :
          (source : FactSource) (o : Option FactConfirmation)
          → (if is_site source then is_given o else true) ≡ true
          → IsElsewhere source ⊎ ((c : FactConfirmation) × (o ≡ some c))
      go site none h = cc
      go site (some c) h = inr (c, refl)
      go sessions o h = inl tt
      go stated_by_customer o h = inl tt

  Stays-survives : (fact : BusinessFact Audience) → Stays fact → survives_re_research fact ≡ true
  Stays-survives fact h = go fact.source fact.confirmation h
    where
      go :
          (source : FactSource) (o : Option FactConfirmation)
          → IsElsewhere source ⊎ ((c : FactConfirmation) × (o ≡ some c))
          → (if is_site source then is_given o else true) ≡ true
      go site none (inl h) = absurd h
      go site none (inr (c, e)) = cc
      go site (some c) h = refl
      go sessions o h = refl
      go stated_by_customer o h = refl

  unanswered :
      (removed : List Text) (facts : List (BusinessFact Audience)) (fact : BusinessFact Audience)
      → is_new (already_answered removed (filter survives_re_research facts)) fact ≡ true
      → IsUnanswered (record { facts = facts; removed = removed }) fact.statement
  unanswered removed [] fact h = record {
    not_removed = none_equal removed fact.statement h;
    not_said = tt;
  }
  unanswered removed (old ∷ facts) fact h = elim (Bool-cases (survives_re_research old)) [
    | inl e ↦
        let (own, rest) =
          said old.corrected_from old.statement fact.statement
            (already_answered removed (filter survives_re_research facts)) (rw e at h) in
        let later = unanswered removed facts fact rest in
        record { not_removed = later.not_removed; not_said = ((λ s. own), later.not_said) }
    | inr e ↦
        let later = unanswered removed facts fact (rw e at h) in
        record {
          not_removed = later.not_removed;
          not_said = ((λ s. cc (e, Stays-survives old s)), later.not_said);
        }
  ]

  All-Within : (facts : List (BusinessFact Audience)) → All (Within facts) facts
  All-Within [] = tt
  All-Within (fact ∷ facts) = (
    inl refl,
    All-map (Within facts) (Within (fact ∷ facts)) facts (λ x h. inr h) (All-Within facts),
  )

  filter-All :
      (P Q : BusinessFact Audience → Type 0) (p : BusinessFact Audience → Bool)
      (facts : List (BusinessFact Audience))
      → ((x : BusinessFact Audience) → P x → p x ≡ true → Q x)
      → All P facts
      → All Q (filter p facts)
  filter-All P Q p [] f h = tt
  filter-All P Q p (fact ∷ facts) f h = elim (Bool-cases (p fact)) [
    | inl e ↦ rw e (f fact h.0 e, filter-All P Q p facts f h.1)
    | inr e ↦ rw e (filter-All P Q p facts f h.1)
  ]

  -- What the merge has before it caps the facts.
  pub filtered-Belongs :
      (current : BusinessContext Audience) (incoming : List (BusinessFact Audience))
      → All (Belongs current incoming) (
          filter survives_re_research current.facts
          ++ filter
              (is_new
                (already_answered current.removed (filter survives_re_research current.facts)))
              incoming)
  filtered-Belongs current incoming =
      let stayed : List (BusinessFact Audience) = filter survives_re_research current.facts in
      All-append (Belongs current incoming) stayed
        (filter (is_new (already_answered current.removed stayed)) incoming)
        (filter-All (Within current.facts) (Belongs current incoming) survives_re_research
          current.facts (λ x within h. kept within (survives-Stays x h)) (All-Within current.facts))
        (filter-All (Within incoming) (Belongs current incoming)
          (is_new (already_answered current.removed stayed)) incoming
          (λ x within h. added within (unanswered current.removed current.facts x h))
          (All-Within incoming))
