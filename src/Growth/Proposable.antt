-- ===== src/Growth/Proposable.antt =====
-- packages/core/src/growth/proposable.ts: the surfaces that no change is proposed for.
pub mod Laws
use growthmind.Prelude.{
  ℕ, Text, text, text_eq, text_includes, Bool, not, Option, none, some, List, [], ◌∷◌, any, filter,
  find?, is_empty, split_on, if◌then◌else◌,
}
use growthmind.Platform.{Platform}

pub data ForbiddenReason : Type 0 where
  pricing_or_billing auth consent_or_terms : ForbiddenReason

abbrev pub forbidden_reasons : List ForbiddenReason
forbidden_reasons = pricing_or_billing ∷ auth ∷ consent_or_terms ∷ []

abbrev pub pricing_segments : List Text
pricing_segments =
    text "pricing"
    ∷ text "price"
    ∷ text "billing"
    ∷ text "payment"
    ∷ text "checkout"
    ∷ text "invoice"
    ∷ text "subscription"
    ∷ text "subscribe"
    ∷ text "upgrade"
    ∷ text "downgrade"
    ∷ text "paywall"
    ∷ text "purchase"
    ∷ text "refund"
    ∷ text "coupon"
    ∷ text "discount"
    ∷ text "stripe"
    ∷ text "paddle"
    ∷ []

abbrev pub auth_segments : List Text
auth_segments =
    text "login"
    ∷ text "signin"
    ∷ text "logout"
    ∷ text "signout"
    ∷ text "password"
    ∷ text "forgot"
    ∷ text "oauth"
    ∷ text "sso"
    ∷ text "saml"
    ∷ text "mfa"
    ∷ text "2fa"
    ∷ text "otp"
    ∷ text "credential"
    ∷ []

abbrev pub consent_segments : List Text
consent_segments =
    text "consent"
    ∷ text "cookie"
    ∷ text "privacy"
    ∷ text "terms"
    ∷ text "legal"
    ∷ text "gdpr"
    ∷ text "ccpa"
    ∷ text "dpa"
    ∷ text "eula"
    ∷ text "licence"
    ∷ text "license"
    ∷ []

abbrev pub forbidden_segments : ForbiddenReason → List Text
forbidden_segments pricing_or_billing = pricing_segments
forbidden_segments auth = auth_segments
forbidden_segments consent_or_terms = consent_segments

pub data ProposalVerdict : Type 0 where
  proposable : ProposalVerdict
  not_proposable : (reason : ForbiddenReason) (matched : Text) → ProposalVerdict

pub record ProposalScope : Type 0 where
  pub confirmed_changeable : List Text

abbrev pub empty_proposal_scope : ProposalScope
empty_proposal_scope = record { confirmed_changeable = [] }

abbrev pub is_in_set : List Text → Text → Bool
is_in_set s t = any s (λ u. text_eq u t)

-- `if (matched !== undefined) return ...`
abbrev pub refused_for :
    ForbiddenReason → Option Text → Option ProposalVerdict → Option ProposalVerdict
refused_for reason none rest = rest
refused_for reason (some matched) rest = some (not_proposable reason matched)

-- The two inner loops over one segment.
unfoldable pub refuse_segment : Text → List ForbiddenReason → Option ProposalVerdict
refuse_segment segment [] = none
refuse_segment segment (reason ∷ reasons) =
    refused_for reason (find? (λ marker. text_includes segment marker) (forbidden_segments reason))
      (refuse_segment segment reasons)

abbrev pub verdict_or : Option ProposalVerdict → ProposalVerdict → ProposalVerdict
verdict_or none rest = rest
verdict_or (some verdict) rest = verdict

-- The loop over the segments.
unfoldable pub refuse_segments : List Text → ProposalVerdict
refuse_segments [] = proposable
refuse_segments (segment ∷ segments) =
    verdict_or (refuse_segment segment forbidden_reasons) (refuse_segments segments)

module _ (W : Platform) where
  abbrev pub segments_of : Text → List Text
  segments_of surface = filter (λ s. not (is_empty s)) (split_on 47 (W.to_lower_case surface))

  unfoldable pub is_proposable_surface : Text → ProposalScope → ProposalVerdict
  unfolding split_on text_eq
  is_proposable_surface surface scope =
      if is_in_set scope.confirmed_changeable surface
      then proposable
      else refuse_segments (segments_of surface)
