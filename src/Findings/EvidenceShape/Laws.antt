-- ===== src/Findings/EvidenceShape/Laws.antt =====
-- packages/core/src/findings/evidence-shape.ts: the shapes of findings whose evidence differs.
use growthmind.Prelude.{
  ℕ, ◌≡◌, refl, sym, ap, Text, compare_texts, compare_texts-same, to_sorted-Permᴰ, order-of_ranking,
  IsRanking-texts, IsOrder, true, Option, some, List, [], ◌∷◌, map,
}
use mathlib.Core.List.{Permᴰ}
use growthmind.Platform.{Platform}
use growthmind.Rules.{EvidenceSignalKind}
use growthmind.Evidence.Signals.{EvidenceSignal}
use growthmind.Serialise.CanonicalJson.{
  serialise_value, serialise_values, every_primitive, array_text, array_value, stringify,
  canonical_json, without_repeats, bracketed,
}
use growthmind.Findings.EvidenceShape.{
  EvidenceShapeInput, evidence_shape, evidence_shape_version, serialise_v3, kind_values, kind_word,
}

kind_text : EvidenceSignalKind → Text
kind_text k = stringify (kind_word k)

every_primitive-kind_values :
    (kinds : List EvidenceSignalKind) → every_primitive (kind_values kinds) ≡ true
every_primitive-kind_values [] = refl
every_primitive-kind_values (k ∷ ks) = every_primitive-kind_values ks

serialise_values-kind_values :
    (kinds : List EvidenceSignalKind)
    → serialise_values (kind_values kinds) ≡ some (map (λ k. stringify (kind_word k)) kinds)
unfolding serialise_value
serialise_values-kind_values [] = refl
serialise_values-kind_values (k ∷ ks) = rw (serialise_values-kind_values ks) refl

map-Permᴰ : {A B : Type 0} (f : A → B) {xs ys : List A} → Permᴰ xs ys → Permᴰ (map f xs) (map f ys)
map-Permᴰ f Permᴰ.nil = Permᴰ.nil
map-Permᴰ f (Permᴰ.cons e d) = Permᴰ.cons (ap f e) (map-Permᴰ f d)
map-Permᴰ f (Permᴰ.swap e g) = Permᴰ.swap (ap f e) (ap f g)
map-Permᴰ f (Permᴰ.trans d e) = Permᴰ.trans (map-Permᴰ f d) (map-Permᴰ f e)

compare_texts-IsOrder : IsOrder compare_texts
compare_texts-IsOrder = order-of_ranking (IsRanking-texts (λ (t : Text). t))

array_text-Permᴰ :
    {parts others : List Text} → Permᴰ parts others → array_text true parts ≡ array_text true others
unfolding array_text
array_text-Permᴰ d =
    ap (λ sorted. bracketed 91 93 (without_repeats sorted))
      (to_sorted-Permᴰ compare_texts compare_texts-IsOrder compare_texts-same d)

serialise_kinds-Permᴰ :
    {kinds others : List EvidenceSignalKind}
    → Permᴰ kinds others
    → serialise_value (array_value (kind_values others))
      ≡ serialise_value (array_value (kind_values kinds))
unfolding serialise_value
serialise_kinds-Permᴰ {kinds} {others} d =
    rw
      (
        serialise_values-kind_values kinds,
        serialise_values-kind_values others,
        every_primitive-kind_values kinds,
        every_primitive-kind_values others,
      )
      (ap some (sym (array_text-Permᴰ (map-Permᴰ (λ k. stringify (kind_word k)) d))))

-- The current evidence shape of a finding is the same in whatever order its proof kinds come, and
-- whatever its signals and its surface's normalisation version are.
pub evidence_shape_rearranged :
    (W : Platform) (input : EvidenceShapeInput) (kinds : List EvidenceSignalKind)
    (signals : List EvidenceSignal) (version : Option ℕ)
    → Permᴰ input.proof_kinds kinds
    → evidence_shape W
        (record input {
          proof_kinds = kinds;
          signals = signals;
          surface_normalisation_version = version;
        })
        evidence_shape_version
      ≡ evidence_shape W input evidence_shape_version
unfolding evidence_shape serialise_v3 canonical_json serialise_value
evidence_shape_rearranged W input kinds signals version d = rw (serialise_kinds-Permᴰ d) refl
