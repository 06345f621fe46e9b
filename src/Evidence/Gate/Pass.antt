-- ===== src/Evidence/Gate/Pass.antt =====
-- packages/core/src/evidence/gate.ts: what stands behind a pass of the gate.
use growthmind.Prelude.{
  ◌≡◌, refl, ap, ◌∙◌, Bool, true, false, List, [], ◌∷◌, map, filter, any, all, arith, some, Any,
  All, any_sound, Any-of_filter, filter-filter, get_last?,
}
use mathlib.Core.Path.{fun_ext}
use growthmind.Doubles.{Doubles}
use growthmind.Rules.{
  FindingClass, broken, confusing, changed_mind, instrumentation, ThresholdRuleSet,
}
use growthmind.Evidence.Signals.{EvidenceSignal, failure_correlated, kind_of, signal_parses}
use growthmind.Evidence.Trace.{TraceEntry}
use growthmind.Evidence.Predicates.{
  proof_predicate, signal_proves, admitted_kinds_for, disqualifies_changed_mind,
  broken_proof_satisfied, confusing_proof_satisfied, changed_mind_proof_satisfied,
  instrumentation_proof_satisfied,
}
use growthmind.Evidence.Gate.{
  GateOutcome, pass, drop, returns, ProposedClaim, claim_parses, evaluate, entry_at,
  proving_signals, is_reachable_class, is_about_claim, has_class,
}
use growthmind.Evidence.Gate.Laws.{
  first_proved, ladder, evaluate-eq-first_proved, is_reachable_class_lem,
}

module _ (F : Doubles) where
  -- What a pass as `c` with this trace records.
  pub record Established (claim : ProposedClaim) (rules : ThresholdRuleSet) (c : FindingClass)
      (trace : List TraceEntry) : Type 0 where
    pub proved : (proof_predicate F c).satisfied (proving_signals F claim) rules ≡ true
    pub reached : is_reachable_class claim.claimed_class c ≡ some true
    pub concluded : get_last? trace ≡ some (entry_at F (proving_signals F claim) rules c)

  pub returned :
      (claim : ProposedClaim) (rules : ThresholdRuleSet) {o : GateOutcome}
      → evaluate F claim rules ≡ returns o
      → first_proved F (proving_signals F claim) rules [] (ladder claim.claimed_class) ≡ o
  returned claim rules h = ground (arith, evaluate-eq-first_proved F claim rules)

  first_proved-pass :
      (proving : List EvidenceSignal) (rules : ThresholdRuleSet) (claimed : FindingClass)
      {c : FindingClass} {trace : List TraceEntry}
      → first_proved F proving rules [] (ladder claimed) ≡ pass c trace
      → ((proof_predicate F c).satisfied proving rules ≡ true)
        × (has_class (ladder claimed) c ≡ true)
        × (get_last? trace ≡ some (entry_at F proving rules c))
  first_proved-pass proving rules broken h = ground arith
  first_proved-pass proving rules confusing h = ground arith
  first_proved-pass proving rules changed_mind h = ground arith
  first_proved-pass proving rules instrumentation h = ground arith

  -- A claim that passes as a class has that class proved by the signals that are about the claim,
  -- the class is reachable from the claimed one, and the trace ends on it, satisfied.
  pub evaluate-Established :
      (claim : ProposedClaim) (rules : ThresholdRuleSet) {c : FindingClass}
      {trace : List TraceEntry}
      → evaluate F claim rules ≡ returns (pass c trace)
      → Established claim rules c trace
  evaluate-Established claim rules {c} h =
      let found =
        first_proved-pass (proving_signals F claim) rules claim.claimed_class
          (returned claim rules h) in
      record {
        proved = found.0;
        reached = is_reachable_class_lem claim.claimed_class c ∙ ap some found.1;
        concluded = found.2;
      }

  satisfied-any :
      (proving : List EvidenceSignal) (rules : ThresholdRuleSet) (c : FindingClass)
      → (proof_predicate F c).satisfied proving rules ≡ true
      → any proving (signal_proves F (admitted_kinds_for c rules) rules) ≡ true
  unfolding broken_proof_satisfied confusing_proof_satisfied changed_mind_proof_satisfied
      instrumentation_proof_satisfied
  satisfied-any proving rules broken h = h
  satisfied-any proving rules confusing h = h
  satisfied-any proving rules changed_mind h = ground arith
  satisfied-any proving rules instrumentation h = h

  -- A pass always stands on a signal that is about the claim, is of a kind admitted for the class
  -- and reaches the magnitude that the rules ask for.
  pub evaluate_evidence :
      (claim : ProposedClaim) (rules : ThresholdRuleSet) {c : FindingClass}
      {trace : List TraceEntry}
      → evaluate F claim rules ≡ returns (pass c trace)
      → Any
          (λ s.
            (is_about_claim s claim ≡ true)
            × (signal_proves F (admitted_kinds_for c rules) rules s ≡ true))
          claim.signals
  evaluate_evidence claim rules {c} h =
      Any-of_filter _ (λ s. is_about_claim s claim) claim.signals
        (any_sound (proving_signals F claim) _ (
          satisfied-any (proving_signals F claim) rules c
            (evaluate-Established claim rules h).proved))

  changed_mind_clean :
      (proving : List EvidenceSignal) (rules : ThresholdRuleSet)
      → changed_mind_proof_satisfied F proving rules ≡ true
      → any proving (λ s. disqualifies_changed_mind (kind_of s)) ≡ false
  unfolding changed_mind_proof_satisfied
  changed_mind_clean proving rules h = ground arith

  -- People are said to have changed their minds only where that was claimed, never by downgrade,
  -- and only where no signal about the claim is a failure or a struggle.
  pub evaluate-changed_mind :
      (claim : ProposedClaim) (rules : ThresholdRuleSet) {trace : List TraceEntry}
      → evaluate F claim rules ≡ returns (pass changed_mind trace)
      → (claim.claimed_class ≡ changed_mind)
        × (any (proving_signals F claim) (λ s. disqualifies_changed_mind (kind_of s)) ≡ false)
  evaluate-changed_mind claim rules h =
      let e = evaluate-Established claim rules h in
      (
        ground (arith, is_reachable_class_lem claim.claimed_class changed_mind, e.reached),
        changed_mind_clean (proving_signals F claim) rules e.proved,
      )

  all-filter :
      (p q : EvidenceSignal → Bool) (xs : List EvidenceSignal)
      → all xs q ≡ true
      → all (filter p xs) q ≡ true
  all-filter p q [] h = refl
  all-filter p q (x ∷ xs) h = ground (arith, all-filter p q xs)

  abbrev pub without_other_signals : ProposedClaim → ProposedClaim
  without_other_signals claim = record claim { signals = proving_signals F claim }

  claim_parses-without_other_signals :
      (claim : ProposedClaim)
      → claim_parses claim ≡ true
      → claim_parses (without_other_signals claim) ≡ true
  unfolding claim_parses
  claim_parses-without_other_signals claim h =
      ground (arith, all-filter (λ s. is_about_claim s claim) signal_parses claim.signals)

  is_about_claim-without_other_signals :
      (claim : ProposedClaim) (s : EvidenceSignal)
      → is_about_claim s (without_other_signals claim) ≡ is_about_claim s claim
  unfolding is_about_claim
  is_about_claim-without_other_signals claim (failure_correlated _ _ _ _ _) = refl
  is_about_claim-without_other_signals claim _ = refl

  proving_signals-without_other_signals :
      (claim : ProposedClaim)
      → proving_signals F (without_other_signals claim) ≡ proving_signals F claim
  proving_signals-without_other_signals claim =
      ap (λ p. filter p (proving_signals F claim))
        (fun_ext (is_about_claim-without_other_signals claim))
      ∙ filter-filter (λ s. is_about_claim s claim) claim.signals

  -- Signals that are not about a claim change nothing: the gate grades a claim that parses as it
  -- grades the claim with those signals taken out.
  pub evaluate-without_other_signals :
      (claim : ProposedClaim) (rules : ThresholdRuleSet)
      → claim_parses claim ≡ true
      → evaluate F (without_other_signals claim) rules ≡ evaluate F claim rules
  evaluate-without_other_signals claim rules h = rw (
    evaluate-eq-first_proved F claim rules,
    evaluate-eq-first_proved F (without_other_signals claim) rules,
    h,
    claim_parses-without_other_signals claim h,
    proving_signals-without_other_signals claim,
  )

  first_proved-drop :
      (proving : List EvidenceSignal) (rules : ThresholdRuleSet) (claimed : FindingClass)
      {trace : List TraceEntry}
      → first_proved F proving rules [] (ladder claimed) ≡ drop trace
      → (All (λ c. (proof_predicate F c).satisfied proving rules ≡ false) (ladder claimed))
        × (trace ≡ map (entry_at F proving rules) (ladder claimed))
  first_proved-drop proving rules broken h = ground arith
  first_proved-drop proving rules confusing h = ground arith
  first_proved-drop proving rules changed_mind h = ground arith
  first_proved-drop proving rules instrumentation h = ground arith

  -- A claim is dropped only if no class on its ladder is proved, and the trace has the refusal of
  -- each of them, in order.
  pub evaluate-drop :
      (claim : ProposedClaim) (rules : ThresholdRuleSet) {trace : List TraceEntry}
      → evaluate F claim rules ≡ returns (drop trace)
      → (All
          (λ c. (proof_predicate F c).satisfied (proving_signals F claim) rules ≡ false)
          (ladder claim.claimed_class))
        × (trace ≡ map (entry_at F (proving_signals F claim) rules) (ladder claim.claimed_class))
  evaluate-drop claim rules h =
      first_proved-drop (proving_signals F claim) rules claim.claimed_class (returned claim rules h)
