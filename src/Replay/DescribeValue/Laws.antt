-- ===== src/Replay/DescribeValue/Laws.antt =====
-- packages/core/src/replay/describe-value.ts: what is shown of a value that was on a page.
use growthmind.Prelude.{
  ℕ, zero, suc, ◌-◌, ◌≤◌, ◌≡◌, sym, Text, Bool, true, false, not, ◌||◌, none, some, [], ◌∷◌, length,
  length-append, drop, take, is_empty, leb, leb→le, if◌then◌else◌, trim_start, trim_end, arith,
  Bool-cases, inl, inr,
}
use growthmind.Regex.Laws.{MatchesNowhere}
use growthmind.Delivery.ResidualPii.Patterns.{detectors, ambiguous_digit_run}
use growthmind.Delivery.ResidualPii.Scan.{is_clean_for_delivery}
use growthmind.Delivery.ResidualPii.Scan.Laws.{IsFree, is_clean_for_delivery_iff}
use growthmind.Replay.DescribeValue.{
  describe_value_max_length, describe_sentence_max_length, describe_truncation_marker, collapse,
  is_masked_text, truncate, truncate_sentence, deliverable_name,
}

length-drop : (n : ℕ) (s : Text) → length (drop n s) ≡ length s - n
length-drop zero s = omega arith
length-drop (suc n) [] = omega arith
length-drop (suc n) (c ∷ s) = omega (arith, length-drop n s)

length-take-le : (n : ℕ) (s : Text) → length (take n s) ≤ n
length-take-le zero s = omega arith
length-take-le (suc n) [] = omega arith
length-take-le (suc n) (c ∷ s) = omega (arith, length-take-le n s)

length-trim_start-le : (s : Text) → length (trim_start s) ≤ length s
unfolding trim_start
length-trim_start-le [] = omega arith
length-trim_start-le (c ∷ s) = ground (arith, length-trim_start-le s)

length-trim_end-le : (s : Text) → length (trim_end s) ≤ length s
unfolding trim_end
length-trim_end-le [] = omega arith
length-trim_end-le (c ∷ s) = ground (arith, length-trim_end-le s)

pub length-truncate-le : (s : Text) → length (truncate s) ≤ describe_value_max_length
unfolding truncate
length-truncate-le s = elim (Bool-cases (leb (length s) describe_value_max_length)) [
  | inl e ↦ rw e (leb→le _ _ e)
  | inr e ↦
      let tail = drop (length s - (describe_value_max_length - 1)) s in
      rw e (
        omega (
          arith,
          length-trim_start-le tail,
          length-drop (length s - (describe_value_max_length - 1)) s,
        ))
]

pub length-truncate_sentence-le :
    (s : Text) → length (truncate_sentence s) ≤ describe_sentence_max_length
unfolding truncate_sentence
length-truncate_sentence-le s = elim (Bool-cases (leb (length s) describe_sentence_max_length)) [
  | inl e ↦ rw e (leb→le _ _ e)
  | inr e ↦
      let head = take (describe_sentence_max_length - 1) s in
      rw e (
        omega (
          arith,
          length-append {0} (trim_end head) describe_truncation_marker,
          length-trim_end-le head,
          length-take-le (describe_sentence_max_length - 1) s,
        ))
]

-- Free of personal data at every place, as the scan knows it.
abbrev pub IsClean : Text → Type 0
IsClean s = IsFree detectors s × MatchesNowhere ambiguous_digit_run none s

gates :
    (blank masked clean : Bool) (s : Text) {shown : Text}
    → (if blank || masked then none else if not clean then none else some s) ≡ some shown
    → (clean ≡ true) × (masked ≡ false) × (s ≡ shown)
gates blank masked clean s h = ground arith

-- A name is withheld, or the whole of the text that it was cut from is clean, is not what the recorder
-- masked, and the name has no more than forty units.
pub deliverable_name_lem :
    (value : Text) {shown : Text}
    → deliverable_name value ≡ some shown
    → IsClean (collapse value)
      × (is_masked_text (collapse value) ≡ false)
      × (shown ≡ truncate (collapse value))
      × (length shown ≤ describe_value_max_length)
unfolding deliverable_name
deliverable_name_lem value {shown} h =
    let collapsed = collapse value in
    let (clean, unmasked, same_text) =
      gates (is_empty collapsed) (is_masked_text collapsed) (is_clean_for_delivery collapsed)
        (truncate collapsed) h in
    (
      (is_clean_for_delivery_iff collapsed).0 clean,
      unmasked,
      sym same_text,
      rw (← same_text) (length-truncate-le collapsed),
    )
