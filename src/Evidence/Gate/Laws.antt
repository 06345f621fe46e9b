-- ===== src/Evidence/Gate/Laws.antt =====
-- packages/core/src/evidence/gate.ts: the gate's loop beside a plain description of the ladder.
use growthmind.Prelude.{◌≡◌, List, [], ◌∷◌, ◌++◌, arith, some, if◌then◌else◌}
use growthmind.Doubles.{Doubles}
use growthmind.Rules.{
  FindingClass, broken, confusing, changed_mind, instrumentation, ThresholdRuleSet,
}
use growthmind.Evidence.Signals.{EvidenceSignal}
use growthmind.Evidence.Trace.{TraceEntry}
use growthmind.Evidence.Predicates.{proof_predicate}
use growthmind.Evidence.Gate.{
  GateOutcome, pass, drop, returns, throws_invalid, ProposedClaim, claim_parses, evaluate, descend,
  entry_at, proving_signals, is_reachable_class, has_class, ladder_fuel, to_class,
}

-- The classes that a claim may stand as, from the one it claims downwards.
abbrev pub ladder : FindingClass → List FindingClass
ladder broken = broken ∷ confusing ∷ []
ladder confusing = confusing ∷ []
ladder changed_mind = changed_mind ∷ []
ladder instrumentation = instrumentation ∷ []

module _ (F : Doubles) where
  -- The first rung that is proved passes, with an entry for each rung down to it.
  abbrev pub first_proved :
      List EvidenceSignal → ThresholdRuleSet → List TraceEntry → List FindingClass → GateOutcome
  first_proved proving rules trace [] = drop trace
  first_proved proving rules trace (c ∷ cs) =
      let trace' : List TraceEntry = trace ++ entry_at F proving rules c ∷ [] in
      let rest = first_proved proving rules trace' cs in
      if (proof_predicate F c).satisfied proving rules then pass c trace' else rest

  descend-ladder :
      (proving : List EvidenceSignal) (rules : ThresholdRuleSet) (c : FindingClass)
      → descend F ladder_fuel proving rules [] (to_class c) []
        ≡ returns (first_proved proving rules [] (ladder c))
  unfolding descend
  descend-ladder proving rules broken = ground arith
  descend-ladder proving rules confusing = ground arith
  descend-ladder proving rules changed_mind = ground arith
  descend-ladder proving rules instrumentation = ground arith

  -- For every claim that parses, the loop ends, and returns what the first proved class of the
  -- ladder gives; a claim that does not parse throws.
  pub evaluate-eq-first_proved :
      (claim : ProposedClaim) (rules : ThresholdRuleSet)
      → evaluate F claim rules ≡ (
          if claim_parses claim
          then returns
              (first_proved (proving_signals F claim) rules [] (ladder claim.claimed_class))
          else throws_invalid)
  unfolding evaluate
  evaluate-eq-first_proved claim rules =
      rw (descend-ladder (proving_signals F claim) rules claim.claimed_class)

-- The classes reachable from a claimed class are those of its ladder.
pub is_reachable_class_lem :
    (claimed final : FindingClass)
    → is_reachable_class claimed final ≡ some (has_class (ladder claimed) final)
unfolding is_reachable_class
is_reachable_class_lem claimed final = ground arith
