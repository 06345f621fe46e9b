-- ===== src/Exclusions/Classify.antt =====
-- packages/shared/src/exclusions/classify.ts, with the types of types.ts: the reason that a session is
-- stamped with when it is stored.
pub mod Laws
use growthmind.Prelude.{
  ℕ, Text, text_eq, Bool, not, ◌&&◌, Option, none, some, List, [], any, is_empty, if◌then◌else◌,
  trim,
}
use growthmind.Platform.{Platform}
use growthmind.Counts.{
  ExclusionReason, kept_none, internal_domain, automation_headless, automation_known_agent,
  automation_coding_agent,
}
use growthmind.Exclusions.FreeMail.{free_mail_domains}
use growthmind.Exclusions.Automation.{
  headless_tokens, known_agent_tokens, coding_agent_tokens, matches_token,
}

pub data IdentityResolution : Type 0 where
  resolved absent unresolved : IdentityResolution

pub record SessionFacts : Type 0 where
  pub identity_email_domain : Option Text
  pub identity_resolution : IdentityResolution
  pub internal_domain : Option Text
  pub user_agent : Option Text

pub record ExclusionRuleSet : Type 0 where
  pub version : ℕ
  pub free_mail_domains : List Text
  pub headless_tokens : List Text
  pub known_agent_tokens : List Text
  pub coding_agent_tokens : List Text

abbrev pub exclusion_rule_set_v1 : ExclusionRuleSet
exclusion_rule_set_v1 = record {
  version = 1;
  free_mail_domains = free_mail_domains;
  headless_tokens = headless_tokens;
  known_agent_tokens = known_agent_tokens;
  coding_agent_tokens = coding_agent_tokens;
}

-- `text?.trim() ?? ""`
abbrev pub trimmed_or_empty : Option Text → Text
trimmed_or_empty none = []
trimmed_or_empty (some s) = trim s

module _ (W : Platform) where
  abbrev pub fires_any : Text → List Text → Bool
  fires_any user_agent tokens = any tokens (λ token. matches_token W user_agent token)

  -- `text?.trim().toLowerCase() ?? ""`
  abbrev pub lower_or_empty : Option Text → Text
  lower_or_empty none = []
  lower_or_empty (some s) = W.to_lower_case (trim s)

  abbrev pub is_own_team : SessionFacts → Bool
  is_own_team facts =
      not (is_empty (lower_or_empty facts.internal_domain))
      && (not (is_empty (lower_or_empty facts.identity_email_domain))
          && text_eq (lower_or_empty facts.identity_email_domain)
              (lower_or_empty facts.internal_domain))

  unfoldable pub classify_exclusion : SessionFacts → ExclusionRuleSet → ExclusionReason
  classify_exclusion facts rules =
      let agent = trimmed_or_empty facts.user_agent in
      let own_team : ExclusionReason = if is_own_team facts then internal_domain else kept_none in
      if is_empty agent
      then own_team
      else if fires_any agent rules.headless_tokens
      then automation_headless
      else if fires_any agent rules.known_agent_tokens
      then automation_known_agent
      else if fires_any agent rules.coding_agent_tokens
      then automation_coding_agent
      else own_team
