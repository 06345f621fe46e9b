-- ===== src/Exclusions/InternalDomain.antt =====
-- packages/shared/src/exclusions/internal-domain.ts: the domain of an email address, and the one that a
-- team's own sessions are told by.
pub mod Laws
use growthmind.Prelude.{
  ℕ, Text, text, Bool, true, false, not, ◌&&◌, ◌||◌, ◌==◌, Option, none, some, List, [], ◌∷◌, any,
  is_empty, get_last?, starts_with, text_includes, if◌then◌else◌, trim, split_on, is_white_space,
}
use growthmind.Platform.{Platform}
use growthmind.Exclusions.FreeMail.{is_free_mail_domain}

abbrev pub at_sign : ℕ
at_sign = 64

abbrev pub full_stop : ℕ
full_stop = 46

abbrev pub ends_with_unit : ℕ → Text → Bool
ends_with_unit c s = elim (get_last? s) [ none ↦ false | some d ↦ d == c ]

-- The early returns on the part behind the at sign.
unfoldable pub checked_domain : Text → Option Text
checked_domain domain =
    if is_empty domain
    then none
    else if not (text_includes domain (full_stop ∷ []))
    then none
    else if starts_with domain (full_stop ∷ []) || ends_with_unit full_stop domain
    then none
    else if text_includes domain (full_stop ∷ full_stop ∷ [])
    then none
    else some domain

module _ (W : Platform) where
  unfoldable pub domain_of_parts : List Text → Option Text
  domain_of_parts (local_part ∷ domain_part ∷ []) =
      if is_empty local_part then none else checked_domain (W.to_lower_case domain_part)
  domain_of_parts _ = none

  unfoldable pub email_domain_of : Option Text → Option Text
  email_domain_of none = none
  email_domain_of (some email) =
      let trimmed = trim email in
      if is_empty trimmed
      then none
      else if any trimmed is_white_space
      then none
      else domain_of_parts (split_on at_sign trimmed)

  abbrev pub unless_free_mail : Option Text → Option Text
  unless_free_mail none = none
  unless_free_mail (some domain) = if is_free_mail_domain W domain then none else some domain

  unfoldable pub infer_internal_domain : Option Text → Option Text
  infer_internal_domain creator_email = unless_free_mail (email_domain_of creator_email)
