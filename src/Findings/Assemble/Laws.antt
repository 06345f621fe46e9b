-- ===== src/Findings/Assemble/Laws.antt =====
-- packages/core/src/findings/assemble.ts: the gate and the schema of a finding, one after the other.
use growthmind.Prelude.{
  ℕ, ◌≡◌, ◌<◌, refl, ap, ◌∙◌, sym, Text, Bool, true, false, not, some, List, [], ◌∷◌, ◌++◌, all,
  is_empty, ltb, head?, arith, ◌⊎◌, inl, inr, if◌then◌else◌, Returns, bind_total, text_eq_refl,
  all-append_one, filled-of_get_last?, &&-eq-true,
}
use growthmind.Doubles.{Doubles}
use growthmind.Platform.{Platform}
use growthmind.Counts.{MeasuredCount}
use growthmind.Sessions.UrlPath.{is_normalised_url_path}
use growthmind.Rules.{
  FindingClass, broken, confusing, changed_mind, instrumentation, ThresholdRuleSet,
  EvidenceSignalKind,
}
use growthmind.Serialise.CanonicalJson.{
  CanonicalFields, no_fields, field_then, array_value, serialise_values, serialise_fields,
  canonical_json, serialise_value, serialise_number, object_text, stringify,
}
use growthmind.Evidence.Signals.{EvidenceSignal, signal_parses}
use growthmind.Evidence.Trace.{TraceEntry}
use growthmind.Evidence.Predicates.{
  proof_predicate, confusing_proof_satisfied, signal_proves, magnitude_satisfied,
}
use growthmind.Evidence.Predicates.Kinds.{includes_kind}
use growthmind.Evidence.Gate.{
  ProposedClaim, GateOutcome, returns, pass, drop, evaluate, entry_at, proving_signals,
  claim_parses, is_about_claim, same_class,
}
use growthmind.Evidence.Gate.Laws.{first_proved, ladder, evaluate-eq-first_proved}
use growthmind.Evidence.Gate.Pass.{evaluate-Established, returned}
use growthmind.Evidence.ObservedStruggle.Laws.{IsObserved}
use growthmind.Detect.Types.{DetectorCandidate}
use growthmind.Findings.EvidenceShape.{
  EvidenceShapeInput, evidence_shape, evidence_shape_version, serialise_v3, kind_values, kind_word,
  fields_v3,
}
use growthmind.Findings.Candidate.{
  CandidateFinding, candidate_finding, trace_parses, trace_entry_parses, last_trace_entry_concludes,
  is_reachable, concludes, is_yes,
}
use growthmind.Findings.Assemble.{
  found, claim_of, assemble_outcome, assemble_candidate, finding_of, shape_input_of,
}

module _ (F : Doubles) where
  entry_at-parses :
      (proving : List EvidenceSignal) (rules : ThresholdRuleSet) (c : FindingClass) (b : Bool)
      → (proof_predicate F c).satisfied proving rules ≡ b
      → trace_entry_parses (entry_at F proving rules c) ≡ true
  entry_at-parses proving rules broken true e = rw e refl
  entry_at-parses proving rules broken false e = rw e refl
  entry_at-parses proving rules confusing true e = rw e refl
  entry_at-parses proving rules confusing false e = rw e refl
  entry_at-parses proving rules changed_mind true e = rw e refl
  entry_at-parses proving rules changed_mind false e = rw e refl
  entry_at-parses proving rules instrumentation true e = rw e refl
  entry_at-parses proving rules instrumentation false e = rw e refl

  if_cases :
      (b : Bool) (x y : GateOutcome) {o : GateOutcome}
      → (if b then x else y) ≡ o
      → (x ≡ o) ⊎ (y ≡ o)
  if_cases true x y e = inl e
  if_cases false x y e = inr e

  first_proved-all_parse :
      (proving : List EvidenceSignal) (rules : ThresholdRuleSet) (so_far : List TraceEntry)
      (rungs : List FindingClass) {c : FindingClass} {trace : List TraceEntry}
      → all so_far trace_entry_parses ≡ true
      → first_proved F proving rules so_far rungs ≡ pass c trace
      → all trace trace_entry_parses ≡ true
  first_proved-all_parse proving rules so_far [] h e = absurd (ground arith)
  first_proved-all_parse proving rules so_far (rung ∷ rungs) {c} {trace} h e =
      let entry : TraceEntry = entry_at F proving rules rung in
      let longer : all (so_far ++ entry ∷ []) trace_entry_parses ≡ true =
        all-append_one so_far entry trace_entry_parses
        ∙ rw (h, entry_at-parses proving rules rung _ refl) refl in
      elim (if_cases ((proof_predicate F rung).satisfied proving rules) _ _ e) [
        | inl stopped ↦ ap trace_all (sym stopped) ∙ longer
        | inr on ↦
            first_proved-all_parse proving rules (so_far ++ entry ∷ []) rungs {c = c}
              {trace = trace} longer on
      ]
    where
      trace_all : GateOutcome → Bool
      trace_all (pass _ t) = all t trace_entry_parses
      trace_all (drop t) = all t trace_entry_parses

  same_class_refl : (c : FindingClass) → same_class c c ≡ true
  same_class_refl c = ground arith

  -- Whatever class the gate passes a claim as, the trace it returns meets the schema of a trace, and
  -- a finding of that class and trace meets both refinements of the schema of findings: the class is
  -- reachable from the claimed one, and the trace ends on it, satisfied.
  pub evaluate_accepted :
      (claim : ProposedClaim) (rules : ThresholdRuleSet) {c : FindingClass}
      {trace : List TraceEntry}
      → evaluate F claim rules ≡ returns (pass c trace)
      → (trace_parses trace ≡ true)
        × (is_reachable claim.claimed_class c ≡ true)
        × (last_trace_entry_concludes trace c ≡ true)
  unfolding trace_parses is_reachable last_trace_entry_concludes
  evaluate_accepted claim rules {c} {trace} h =
      let e = evaluate-Established F claim rules h in
      (
        rw
            (
              filled-of_get_last? trace e.concluded,
              first_proved-all_parse (proving_signals F claim) rules [] (ladder claim.claimed_class)
                  {c = c} {trace = trace} refl (returned F claim rules h),
            )
            refl,
        ap is_yes e.reached,
        ap (concludes c) e.concluded ∙ rw (e.proved, same_class_refl c) refl,
      )

serialise_kinds_total :
    (kinds : List EvidenceSignalKind) → Returns (serialise_values (kind_values kinds))
unfolding serialise_value
serialise_kinds_total [] = ([], refl)
serialise_kinds_total (k ∷ ks) =
    let (parts, e) = serialise_kinds_total ks in (stringify (kind_word k) ∷ parts, rw e refl)

-- Each value of an object has a text.
abbrev FieldsReturn : CanonicalFields → Type 0
FieldsReturn no_fields = Unit
FieldsReturn (field_then key v fs) = Returns (serialise_value v) × FieldsReturn fs

serialise_fields_total : (fs : CanonicalFields) → FieldsReturn fs → Returns (serialise_fields fs)
unfolding serialise_value
serialise_fields_total no_fields h = ([], refl)
serialise_fields_total (field_then key v fs) h =
    bind_total _ _ h.0
      (λ part. bind_total _ _ (serialise_fields_total fs h.1) (λ fields. (_, refl)))

fields_v3_total :
    (input : EvidenceShapeInput) (surface : Text)
    → Returns (serialise_fields (fields_v3 input surface))
unfolding serialise_value serialise_number
fields_v3_total input surface =
    let kinds : Returns (serialise_value (array_value (kind_values input.proof_kinds))) =
      bind_total _ _ (serialise_kinds_total input.proof_kinds) (λ parts. (_, refl)) in
    serialise_fields_total (fields_v3 input surface)
      ((_, refl), ((_, refl), ((_, refl), (kinds, ((_, refl), tt)))))

evidence_shape_total :
    (W : Platform) (input : EvidenceShapeInput)
    → is_normalised_url_path W input.surface ≡ true
    → (shape : Text) × (evidence_shape W input evidence_shape_version ≡ some shape)
      × (is_empty shape ≡ false)
unfolding evidence_shape serialise_v3 canonical_json serialise_value object_text
evidence_shape_total W input normalised =
    let (fields, e) = fields_v3_total input input.surface in
    (object_text fields, rw (normalised, e) refl, refl)

positive : (n : ℕ) → 0 < n → ltb 0 n ≡ true
positive n h = ground arith

module _ (F : Doubles) where
  claim_parses-of_pass :
      (claim : ProposedClaim) (rules : ThresholdRuleSet) {c : FindingClass}
      {trace : List TraceEntry}
      → evaluate F claim rules ≡ returns (pass c trace)
      → claim_parses claim ≡ true
  claim_parses-of_pass claim rules h = ground (arith, evaluate-eq-first_proved F claim rules)

  -- Every candidate for observed struggle passes the gate as confusing, if its surface is not empty
  -- and the rules admit struggle as proof of confusion.
  pub evaluate-IsObserved :
      (rules : ThresholdRuleSet) (candidate : DetectorCandidate)
      → IsObserved rules candidate
      → is_empty candidate.surface ≡ false
      → includes_kind rules.confusing_proof_signals EvidenceSignalKind.struggle ≡ true
      → evaluate F (claim_of candidate) rules
        ≡ returns (
            pass confusing
              (entry_at F (proving_signals F (claim_of candidate)) rules confusing ∷ []))
  unfolding claim_parses is_about_claim confusing_proof_satisfied signal_proves magnitude_satisfied
  evaluate-IsObserved rules candidate o filled admitted =
      rw
        (
          evaluate-eq-first_proved F (claim_of candidate) rules,
          o.claims_confusing,
          o.one_signal,
          filled,
          text_eq_refl candidate.surface,
          admitted,
          o.reaches,
        )
        refl

module _ (F : Doubles) (W : Platform) where
  -- A candidate that the gate passes becomes a finding, which the schema does not refuse, if its
  -- surface is normalised, it has a count, and the rules have a version above zero; the finding has the
  -- class and the trace that the gate returned.
  pub assemble_candidate_total :
      (rules : ThresholdRuleSet) (candidate : DetectorCandidate) {c : FindingClass}
      {trace : List TraceEntry}
      → evaluate F (claim_of candidate) rules ≡ returns (pass c trace)
      → is_normalised_url_path W candidate.surface ≡ true
      → is_empty candidate.counts ≡ false
      → 0 < rules.version
      → (f : CandidateFinding) × (assemble_candidate F W rules candidate ≡ some (found f))
        × (f.final_class ≡ c)
        × (f.trace ≡ trace)
  unfolding assemble_candidate assemble_outcome candidate_finding claim_parses
  assemble_candidate_total rules candidate {c} {trace} h normalised counted version =
      let claim = claim_of candidate in
      let (shape, e, filled) =
        evidence_shape_total W (shape_input_of candidate c rules) normalised in
      let (parses, reachable, concluded) = evaluate_accepted F claim rules h in
      let claim_ok = claim_parses-of_pass F claim rules h in
      let (sample, s) = some_head candidate.counts counted in
      let surface_ok : not (is_empty candidate.surface) ≡ true = (&&-eq-true _ _ claim_ok).0 in
      let signals_ok : all candidate.signals signal_parses ≡ true = (&&-eq-true _ _ claim_ok).1 in
      let versioned : ltb 0 rules.version ≡ true = positive rules.version version in
      (
        finding_of F W rules candidate c trace shape sample,
        rw
            (
              h, e, s, parses, counted, signals_ok, surface_ok, filled, versioned, reachable,
              concluded,
            )
            refl,
        refl,
        refl,
      )
    where
      some_head : (counts : List MeasuredCount) → is_empty counts ≡ false → Returns (head? counts)
      some_head [] n = cc
      some_head (x ∷ xs) n = (x, refl)
