-- ===== src/Growth/Proposable/Laws.antt =====
-- packages/core/src/growth/proposable.ts: the segments of a surface and its forbidden words.
use growthmind.Prelude.{
  find?-Any, find?-none, ◌≡◌, refl, Text, text_includes, Bool, true, false, Option, none, some,
  List, [], ◌∷◌, Any, any, find?, Option-cases, inl, inr, ||-true,
}
use growthmind.Platform.{Platform}
use growthmind.Growth.Proposable.{
  ForbiddenReason, forbidden_reasons, forbidden_segments, ProposalVerdict, proposable,
  not_proposable, ProposalScope, is_in_set, refuse_segment, refused_for, verdict_or,
  refuse_segments, segments_of, is_proposable_surface,
}

-- A segment with a word of a forbidden list.
abbrev pub names_forbidden_for : Text → ForbiddenReason → Bool
names_forbidden_for segment reason =
    any (forbidden_segments reason) (λ marker. text_includes segment marker)

abbrev pub names_forbidden : Text → Bool
names_forbidden segment = any forbidden_reasons (names_forbidden_for segment)

-- The verdict is that the segment has this word, and the word is one of the list of this reason.
abbrev pub IsGrounded : Text → ProposalVerdict → Type 0
IsGrounded segment proposable = ⊥
IsGrounded segment (not_proposable reason matched) =
    (text_includes segment matched ≡ true) × Any (λ m. m ≡ matched) (forbidden_segments reason)

abbrev VerdictOrNone : List ForbiddenReason → Text → Option ProposalVerdict → Type 0
VerdictOrNone reasons segment none = any reasons (names_forbidden_for segment) ≡ false
VerdictOrNone reasons segment (some verdict) =
    IsGrounded segment verdict × (any reasons (names_forbidden_for segment) ≡ true)

Any-eq :
    (p : Text → Bool) (xs : List Text) {m : Text}
    → Any (λ y. (y ≡ m) × (p y ≡ true)) xs
    → (p m ≡ true) × Any (λ y. y ≡ m) xs
Any-eq p [] h = absurd h
Any-eq p (x ∷ xs) (inl (e, q)) = (rw (← e) q, inl e)
Any-eq p (x ∷ xs) (inr h) = let (q, among) = Any-eq p xs h in (q, inr among)

includes-any :
    (segment m : Text) (xs : List Text)
    → text_includes segment m ≡ true
    → Any (λ y. y ≡ m) xs
    → any xs (λ marker. text_includes segment marker) ≡ true
includes-any segment m [] q h = absurd h
includes-any segment m (x ∷ xs) q (inl e) = rw (e, q) refl
includes-any segment m (x ∷ xs) q (inr h) =
    rw (includes-any segment m xs q h) (||-true (text_includes segment x))

no_word_for :
    (segment : Text) (reason : ForbiddenReason) (reasons : List ForbiddenReason)
    (o : Option ProposalVerdict)
    → names_forbidden_for segment reason ≡ false
    → VerdictOrNone reasons segment o
    → VerdictOrNone (reason ∷ reasons) segment o
no_word_for segment reason reasons none e h = rw (e, h) refl
no_word_for segment reason reasons (some verdict) e h = (h.0, rw (e, h.1) refl)

refused_for_lem :
    (segment : Text) (reason : ForbiddenReason) (reasons : List ForbiddenReason)
    (o : Option ProposalVerdict)
    → VerdictOrNone reasons segment o
    → VerdictOrNone (reason ∷ reasons) segment (
        refused_for reason
          (find? (λ marker. text_includes segment marker) (forbidden_segments reason))
          o)
refused_for_lem segment reason reasons o h =
    elim (Option-cases
      (find? (λ marker. text_includes segment marker) (forbidden_segments reason))) [
        | inl e ↦ rw e (
            no_word_for segment reason reasons o
              (find?-none (λ marker. text_includes segment marker) (forbidden_segments reason) e) h)
        | inr (m, e) ↦
            let (q, among) =
              Any-eq (λ marker. text_includes segment marker) (forbidden_segments reason)
                (find?-Any (λ marker. text_includes segment marker) (forbidden_segments reason)
                  e) in
            rw e ((q, among), rw (includes-any segment m (forbidden_segments reason) q among) refl)
      ]

refuse_segment_lem :
    (segment : Text) (reasons : List ForbiddenReason)
    → VerdictOrNone reasons segment (refuse_segment segment reasons)
unfolding refuse_segment
refuse_segment_lem segment [] = refl
refuse_segment_lem segment (reason ∷ reasons) =
    refused_for_lem segment reason reasons (refuse_segment segment reasons)
      (refuse_segment_lem segment reasons)

-- What the verdict on some segments says of them.
abbrev pub IsVerdictOn : List Text → ProposalVerdict → Type 0
IsVerdictOn segments proposable = any segments names_forbidden ≡ false
IsVerdictOn segments (not_proposable reason matched) =
    Any (λ segment. IsGrounded segment (not_proposable reason matched)) segments

verdict_or_lem :
    (segment : Text) (segments : List Text) (o : Option ProposalVerdict) (rest : ProposalVerdict)
    → VerdictOrNone forbidden_reasons segment o
    → IsVerdictOn segments rest
    → IsVerdictOn (segment ∷ segments) (verdict_or o rest)
verdict_or_lem segment segments none proposable h k = rw h k
verdict_or_lem segment segments none (not_proposable reason matched) h k = inr k
verdict_or_lem segment segments (some proposable) rest h k = absurd h.0
verdict_or_lem segment segments (some (not_proposable reason matched)) rest h k = inl h.0

refuse_segments_lem : (segments : List Text) → IsVerdictOn segments (refuse_segments segments)
unfolding refuse_segments
refuse_segments_lem [] = refl
refuse_segments_lem (segment ∷ segments) =
    verdict_or_lem segment segments (refuse_segment segment forbidden_reasons)
      (refuse_segments segments) (refuse_segment_lem segment forbidden_reasons)
      (refuse_segments_lem segments)

-- A surface that the customer did not confirm to be changeable is proposable only if none of its
-- segments has a forbidden word; a refusal names a word that one of them has, and a reason whose list
-- has the word.
pub is_proposable_surface_lem :
    (W : Platform) (surface : Text) (scope : ProposalScope)
    → is_in_set scope.confirmed_changeable surface ≡ false
    → IsVerdictOn (segments_of W surface) (is_proposable_surface W surface scope)
unfolding is_proposable_surface
is_proposable_surface_lem W surface scope h = rw h (refuse_segments_lem (segments_of W surface))
