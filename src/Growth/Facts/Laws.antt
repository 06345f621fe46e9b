-- ===== src/Growth/Facts/Laws.antt =====
-- packages/core/src/growth/research-merge.ts: a merge of a new research and the limits on its facts.
use growthmind.Prelude.{
  ℕ, suc, zero, ◌+◌, ◌≤◌, ◌≡◌, ap, Text, Bool, true, false, some, List, [], ◌∷◌, ◌++◌, filter,
  length, take, leb, ◌==◌, if◌then◌else◌, map_get, map_set, map_get-map_set, map_get_same, arith,
  Bool-cases, inl, inr, All,
}
use growthmind.Growth.Facts.Remaining.{Belongs, filtered-Belongs}
use growthmind.Growth.Facts.{
  BusinessFactKind, kind_index, same_fact_kind, BusinessFact, so_far, cap_loop, cap_facts_per_kind,
  facts_per_kind_max, business_fact_limit, BusinessContext, merge_research, survives_re_research,
  already_answered, is_new,
}

eq_left : (a b c : ℕ) → (a == b) ≡ true → (a == c) ≡ (b == c)
eq_left a b c h = ground arith

eq_right : (a b c : ℕ) → (b == c) ≡ true → (a == b) ≡ (a == c)
eq_right a b c h = ground arith

kind_left :
    (i j k : BusinessFactKind) → same_fact_kind i j ≡ true → same_fact_kind i k ≡ same_fact_kind j k
kind_left i j k h = eq_left (kind_index i) (kind_index j) (kind_index k) h

kind_right :
    (i j k : BusinessFactKind) → same_fact_kind j k ≡ true → same_fact_kind i j ≡ same_fact_kind i k
kind_right i j k h = eq_right (kind_index i) (kind_index j) (kind_index k) h

got_after :
    (j k : BusinessFactKind) (n : ℕ) (kept : List (BusinessFactKind × ℕ))
    → so_far (map_get same_fact_kind k (map_set same_fact_kind j n kept))
      ≡ so_far (if same_fact_kind j k then some n else map_get same_fact_kind k kept)
got_after j k n kept = ap so_far (map_get-map_set same_fact_kind kind_left kind_right j k n kept)

module _ {Audience : Type 0} where
  abbrev of_kind : BusinessFactKind → BusinessFact Audience → Bool
  of_kind k fact = same_fact_kind fact.kind k

  cap_loop-count :
      (facts : List (BusinessFact Audience)) (kept : List (BusinessFactKind × ℕ))
      (k : BusinessFactKind)
      → so_far (map_get same_fact_kind k kept) ≤ facts_per_kind_max
      → length (filter (of_kind k) (cap_loop facts kept)) + so_far (map_get same_fact_kind k kept)
        ≤ facts_per_kind_max
  unfolding cap_loop
  cap_loop-count [] kept k h = omega arith
  cap_loop-count (fact ∷ facts) kept k h = elim (Bool-cases (leb facts_per_kind_max n)) [
    | inl over ↦ rw over (cap_loop-count facts kept k h)
    | inr under ↦ rw under (elim (Bool-cases (same_fact_kind fact.kind k)) [
      | inl e ↦
          let got = rw e at (got_after fact.kind k (n + 1) kept) in
          let same =
            ap so_far (map_get_same same_fact_kind kind_left kind_right fact.kind k kept e) in
          let few : n + 1 ≤ facts_per_kind_max = below n under in
          rw e (omega (arith, got, same, cap_loop-count facts later k (omega (arith, got, few))))
      | inr e ↦
          let got = rw e at (got_after fact.kind k (n + 1) kept) in
          rw e (omega (arith, got, cap_loop-count facts later k (omega (arith, got, h))))
    ])
  ]
    where
      n : ℕ
      n = so_far (map_get same_fact_kind fact.kind kept)

      later : List (BusinessFactKind × ℕ)
      later = map_set same_fact_kind fact.kind (n + 1) kept

      below : (v : ℕ) → leb facts_per_kind_max v ≡ false → v + 1 ≤ facts_per_kind_max
      below v h = ground arith

  cap_loop-All :
      (P : BusinessFact Audience → Type 0) (facts : List (BusinessFact Audience))
      (kept : List (BusinessFactKind × ℕ))
      → All P facts
      → All P (cap_loop facts kept)
  unfolding cap_loop
  cap_loop-All P [] kept h = tt
  cap_loop-All P (fact ∷ facts) kept h =
      elim (Bool-cases (leb facts_per_kind_max (so_far (map_get same_fact_kind fact.kind kept)))) [
        | inl over ↦ rw over (cap_loop-All P facts kept h.1)
        | inr under ↦ rw under (h.0, cap_loop-All P facts _ h.1)
      ]

  take-All :
      (P : BusinessFact Audience → Type 0) (n : ℕ) (facts : List (BusinessFact Audience))
      → All P facts
      → All P (take n facts)
  take-All P zero facts h = tt
  take-All P (suc n) [] h = tt
  take-All P (suc n) (fact ∷ facts) h = (h.0, take-All P n facts h.1)

  length-take_le : (n : ℕ) (facts : List (BusinessFact Audience)) → length (take n facts) ≤ n
  length-take_le zero facts = omega arith
  length-take_le (suc n) [] = omega arith
  length-take_le (suc n) (fact ∷ facts) = omega (arith, length-take_le n facts)

  length-filter-take_le :
      (p : BusinessFact Audience → Bool) (n : ℕ) (facts : List (BusinessFact Audience))
      → length (filter p (take n facts)) ≤ length (filter p facts)
  length-filter-take_le p zero facts = omega arith
  length-filter-take_le p (suc n) [] = omega arith
  length-filter-take_le p (suc n) (fact ∷ facts) = ground (arith, length-filter-take_le p n facts)

  -- A merge leaves at most forty-eight facts and at most four of a kind. Each of them is either a fact of
  -- the context that does not come from the site or that a person confirmed, or an incoming one whose
  -- statement was not removed, is not that of such a fact and is not one that such a fact was corrected
  -- from.
  pub merge_research_lem :
      (current : BusinessContext Audience) (incoming : List (BusinessFact Audience))
      → (length (merge_research current incoming).facts ≤ business_fact_limit)
        × ((k : BusinessFactKind)
            → length (filter (of_kind k) (merge_research current incoming).facts)
              ≤ facts_per_kind_max)
        × All (Belongs current incoming) (merge_research current incoming).facts
  unfolding merge_research cap_facts_per_kind map_get
  merge_research_lem current incoming =
      let kept : List (BusinessFact Audience) = filter survives_re_research current.facts in
      let answered : List Text = already_answered current.removed kept in
      let all_facts : List (BusinessFact Audience) = kept ++ filter (is_new answered) incoming in
      (
        length-take_le business_fact_limit (cap_loop all_facts []),
        (λ k. omega (
          arith,
          length-filter-take_le (of_kind k) business_fact_limit (cap_loop all_facts []),
          cap_loop-count all_facts [] k (omega arith),
        )),
        take-All (Belongs current incoming) business_fact_limit (cap_loop all_facts []) (
            cap_loop-All (Belongs current incoming) all_facts []
              (filtered-Belongs current incoming)),
      )
