-- ===== src/Exclusions/Classify/Laws.antt =====
-- packages/shared/src/exclusions/classify.ts: sessions that are stamped as automation.
use growthmind.Prelude.{
  ||-true, ◌⊎◌, Bool-cases, ◌≡◌, ◌↔◌, refl, Text, Bool, true, false, not, ◌&&◌, ◌||◌, List, [], ◌∷◌,
  All, Any, is_empty, arith, Bool-cases, inl, inr,
}
use growthmind.Platform.{Platform}
use growthmind.Counts.{
  ExclusionReason, kept_none, internal_domain, automation_headless, automation_known_agent,
  automation_coding_agent, outside_who_counts,
}
use growthmind.Exclusions.Automation.{matches_token}
use growthmind.Exclusions.Automation.Laws.{StandsAlone, matches_token_iff}
use growthmind.Exclusions.Classify.{
  none, SessionFacts, ExclusionRuleSet, trimmed_or_empty, fires_any, classify_exclusion,
}

abbrev pub is_automation : ExclusionReason → Bool
is_automation kept_none = false
is_automation internal_domain = false
is_automation automation_headless = true
is_automation automation_known_agent = true
is_automation automation_coding_agent = true
is_automation outside_who_counts = false

fires_either :
    (blank a b c : Bool) {P Q R : Type 0}
    → (a ≡ true) ↔ P
    → (b ≡ true) ↔ Q
    → (c ≡ true) ↔ R
    → ((not blank && (a || (b || c))) ≡ true) ↔ ((blank ≡ false) × (P ⊎ (Q ⊎ R)))
fires_either true a b c p q r = ((λ e. cc), λ e. cc (e.0))
fires_either false true b c p q r = ((λ e. (refl, inl (p.0 refl))), λ e. refl)
fires_either false false true c p q r = ((λ e. (refl, inr (inl (q.0 refl)))), λ e. refl)
fires_either false false false c p q r = (
  (λ e. (refl, inr (inr (r.0 e)))),
  λ e. elim e.1 [
    | inl x ↦ cc (p.1 x)
    | inr other ↦ elim other [ inl y ↦ cc (q.1 y) | inr z ↦ r.1 z ]
  ],
)

module _ (W : Platform) where
  abbrev pub Fires : Text → Text → Type 0
  Fires user_agent token = StandsAlone (W.to_lower_case token) none (W.to_lower_case user_agent)

  abbrev pub AreTokens : List Text → Type 0
  AreTokens tokens = All (λ token. is_empty (W.to_lower_case token) ≡ false) tokens

  fires_any_iff :
      (user_agent : Text) (tokens : List Text)
      → AreTokens tokens
      → (fires_any W user_agent tokens ≡ true) ↔ Any (Fires user_agent) tokens
  fires_any_iff user_agent [] h = ((λ e. cc), λ e. absurd e)
  fires_any_iff user_agent (token ∷ tokens) h =
      let (there, back) = matches_token_iff W user_agent token h.0 in
      let (there', back') = fires_any_iff user_agent tokens h.1 in
      (
        λ e. elim (Bool-cases (matches_token W user_agent token)) [
          | inl fires ↦ inl (there fires)
          | inr silent ↦ inr (there' (rw silent at e))
        ],
        λ e. elim e [
          | inl fires ↦ rw (back fires) refl
          | inr later ↦ rw (back' later) (||-true (matches_token W user_agent token))
        ],
      )

  automation_by_tests :
      (facts : SessionFacts) (rules : ExclusionRuleSet)
      → is_automation (classify_exclusion W facts rules) ≡ (
          not (is_empty (trimmed_or_empty facts.user_agent))
          && (fires_any W (trimmed_or_empty facts.user_agent) rules.headless_tokens
              || (fires_any W (trimmed_or_empty facts.user_agent) rules.known_agent_tokens
                  || fires_any W (trimmed_or_empty facts.user_agent) rules.coding_agent_tokens)))
  unfolding classify_exclusion
  automation_by_tests facts rules = ground arith

  -- A session is stamped as automation exactly if its user agent is not blank and one of the three
  -- lists has a token that stands alone in it, whatever is known of its domain.
  pub classify_exclusion_automation :
      (facts : SessionFacts) (rules : ExclusionRuleSet)
      → AreTokens rules.headless_tokens
      → AreTokens rules.known_agent_tokens
      → AreTokens rules.coding_agent_tokens
      → (is_automation (classify_exclusion W facts rules) ≡ true) ↔ (
          (is_empty (trimmed_or_empty facts.user_agent) ≡ false)
          × (Any (Fires (trimmed_or_empty facts.user_agent)) rules.headless_tokens
              ⊎ (Any (Fires (trimmed_or_empty facts.user_agent)) rules.known_agent_tokens
                  ⊎ Any (Fires (trimmed_or_empty facts.user_agent)) rules.coding_agent_tokens)))
  classify_exclusion_automation facts rules h k c =
      let agent = trimmed_or_empty facts.user_agent in
      rw (automation_by_tests facts rules) (
        fires_either (is_empty agent) (fires_any W agent rules.headless_tokens)
          (fires_any W agent rules.known_agent_tokens) (fires_any W agent rules.coding_agent_tokens)
          (fires_any_iff agent rules.headless_tokens h)
          (fires_any_iff agent rules.known_agent_tokens k)
          (fires_any_iff agent rules.coding_agent_tokens c))
