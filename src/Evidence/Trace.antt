-- ===== src/Evidence/Trace.antt =====
-- packages/core/src/evidence/trace.ts: the record of what the gate concluded at each class, with
-- the sentences of packages/shared/src/gate/messages.ts.
use growthmind.Prelude.{ℕ, Bool, true, false, String}
use growthmind.Rules.{FindingClass, broken, confusing, changed_mind, instrumentation}

pub data GateReasonCode : Type 0 where
  broken_satisfied broken_unsatisfied confusing_satisfied confusing_unsatisfied
        changed_mind_satisfied changed_mind_unsatisfied instrumentation_satisfied
        instrumentation_unsatisfied :
      GateReasonCode

abbrev pub gate_reason_message : GateReasonCode → String
gate_reason_message broken_satisfied =
    "We could prove the thing they were trying to do failed on them."
gate_reason_message broken_unsatisfied =
    "We could not prove that anything actually failed for the people here, so we are not saying it did."
gate_reason_message confusing_satisfied =
    "People hesitated, went back, or tried the same thing more than once here."
gate_reason_message confusing_unsatisfied =
    "We could not show that anyone struggled here, so we are not making a claim about it."
gate_reason_message changed_mind_satisfied =
    "People left cleanly here, with nothing going wrong and no sign of struggle."
gate_reason_message changed_mind_unsatisfied =
    "We could not show that people left here with nothing going wrong, so we are not saying they simply moved on."
gate_reason_message instrumentation_satisfied = "An event you rely on has almost stopped arriving."
gate_reason_message instrumentation_unsatisfied =
    "We could not show that an event you rely on has stopped arriving as often as it used to."

pub record TraceEntry : Type 0 where
  pub class : FindingClass
  pub predicate : String
  pub predicate_version : ℕ
  pub satisfied : Bool
  pub reason_code : GateReasonCode
  pub reason : String

-- The template literal `${class}_satisfied` or `${class}_unsatisfied`.
abbrev pub reason_code_of : FindingClass → Bool → GateReasonCode
reason_code_of broken true = broken_satisfied
reason_code_of broken false = broken_unsatisfied
reason_code_of confusing true = confusing_satisfied
reason_code_of confusing false = confusing_unsatisfied
reason_code_of changed_mind true = changed_mind_satisfied
reason_code_of changed_mind false = changed_mind_unsatisfied
reason_code_of instrumentation true = instrumentation_satisfied
reason_code_of instrumentation false = instrumentation_unsatisfied

abbrev pub trace_entry : FindingClass → String → ℕ → Bool → TraceEntry
trace_entry class predicate version satisfied = record {
  class = class;
  predicate = predicate;
  predicate_version = version;
  satisfied = satisfied;
  reason_code = reason_code_of class satisfied;
  reason = gate_reason_message (reason_code_of class satisfied);
}
