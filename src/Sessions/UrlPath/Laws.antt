-- ===== src/Sessions/UrlPath/Laws.antt =====
-- packages/shared/src/sessions/url-path.ts: what is left in a path that was redacted.
use growthmind.Prelude.{
  ◌≡◌, refl, Text, false, List, [], ◌∷◌, map, All, Bool-cases, inl, inr, is_empty, join_with,
  split_on, Lacks, split_on-join_with, split_on-Lacks, split_on_filled,
}
use growthmind.Sessions.UrlPath.{
  slash, is_identifier_shaped_segment, redact_segment, redact_filled, redacted_path,
}

redact_filled-Lacks : (segment : Text) → Lacks slash segment → Lacks slash (redact_filled segment)
unfolding redact_segment
redact_filled-Lacks [] h = h
redact_filled-Lacks (c ∷ s) h = elim (Bool-cases (is_identifier_shaped_segment (c ∷ s))) [
  | inl e ↦ rw e (refl, (refl, (refl, tt)))
  | inr e ↦ rw e h
]

redact_filled-clean :
    (segment : Text) → is_identifier_shaped_segment (redact_filled segment) ≡ false
unfolding redact_segment is_identifier_shaped_segment
redact_filled-clean [] = refl
redact_filled-clean (c ∷ s) = elim (Bool-cases (is_identifier_shaped_segment (c ∷ s))) [
  | inl e ↦ rw e refl
  | inr e ↦ rw e e
]

redacted-Lacks :
    (segments : List Text)
    → All (Lacks slash) segments
    → All (Lacks slash) (map redact_filled segments)
redacted-Lacks [] h = tt
redacted-Lacks (s ∷ ss) h = (redact_filled-Lacks s h.0, redacted-Lacks ss h.1)

redacted_clean :
    (segments : List Text)
    → All (λ s. is_identifier_shaped_segment s ≡ false) (map redact_filled segments)
redacted_clean [] = tt
redacted_clean (s ∷ ss) = (redact_filled-clean s, redacted_clean ss)

split_on-redacted :
    (segments : List Text)
    → is_empty segments ≡ false
    → All (Lacks slash) segments
    → split_on slash (join_with slash (map redact_filled segments)) ≡ map redact_filled segments
split_on-redacted [] e h = cc
split_on-redacted (s ∷ ss) e h =
    split_on-join_with slash (redact_filled s) (map redact_filled ss) (redacted-Lacks (s ∷ ss) h)

-- Redacting keeps the segments of a path in number and order, and replaces exactly those that are
-- shaped like an identifier.
pub split_on-redacted_path :
    (path : Text) → split_on slash (redacted_path path) ≡ map redact_filled (split_on slash path)
unfolding redacted_path
split_on-redacted_path path =
    split_on-redacted (split_on slash path) (split_on_filled slash path) (split_on-Lacks slash path)

-- No segment of a redacted path is shaped like an email address, a UUID, a long hexadecimal run, a
-- token or a long run of digits.
pub redacted_path_clean :
    (path : Text)
    → All (λ s. is_identifier_shaped_segment s ≡ false) (split_on slash (redacted_path path))
redacted_path_clean path = rw (split_on-redacted_path path) (redacted_clean (split_on slash path))
