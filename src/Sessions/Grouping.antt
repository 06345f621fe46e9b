-- ===== src/Sessions/Grouping.antt =====
-- packages/shared/src/sessions/grouping.ts: accounts, which are the sessions of one mail domain.
pub mod Recency
pub mod Laws
use growthmind.Prelude.{
  ℕ, ◌+◌, Text, text_eq, Bool, Option, none, some, List, [], ◌∷◌, map, map_get, map_set, to_sorted,
  Sign, compare_numbers, ltb, if◌then◌else◌,
}
use growthmind.Platform.{Platform}
use growthmind.Exclusions.FreeMail.{is_free_mail_domain}

pub record GroupableSessionFact : Type 0 where
  pub identity_email_domain : Text
  pub started_at : ℕ

-- The value of a domain in the map.
pub record DomainGroup : Type 0 where
  pub count : ℕ
  pub most_recent_session_at : ℕ

pub record AccountGroup : Type 0 where
  pub domain : Text
  pub session_count : ℕ
  pub most_recent_session_at : ℕ

abbrev pub first_of_group : GroupableSessionFact → DomainGroup
first_of_group session = record { count = 1; most_recent_session_at = session.started_at }

abbrev pub one_more : GroupableSessionFact → DomainGroup → DomainGroup
one_more session existing = record {
  count = existing.count + 1;
  most_recent_session_at =
      if ltb existing.most_recent_session_at session.started_at
      then session.started_at
      else existing.most_recent_session_at;
}

abbrev pub group_with : GroupableSessionFact → Option DomainGroup → DomainGroup
group_with session none = first_of_group session
group_with session (some existing) = one_more session existing

abbrev pub to_account_group : Text × DomainGroup → AccountGroup
to_account_group (domain, g) = record {
  domain = domain;
  session_count = g.count;
  most_recent_session_at = g.most_recent_session_at;
}

-- `b.mostRecentSessionAt - a.mostRecentSessionAt`
abbrev pub compare_recency : AccountGroup → AccountGroup → Sign
compare_recency a b = compare_numbers b.most_recent_session_at a.most_recent_session_at

module _ (W : Platform) where
  -- The loop over the sessions.
  unfoldable pub group_from :
      List GroupableSessionFact → List (Text × DomainGroup) → List (Text × DomainGroup)
  unfolding map_get map_set
  group_from [] groups = groups
  group_from (session ∷ sessions) groups = group_from sessions (
      if is_free_mail_domain W session.identity_email_domain
      then groups
      else map_set text_eq session.identity_email_domain
          (group_with session (map_get text_eq session.identity_email_domain groups)) groups)

  unfoldable pub group_sessions_by_domain : List GroupableSessionFact → List AccountGroup
  unfolding group_from to_sorted
  group_sessions_by_domain sessions =
      to_sorted compare_recency (map to_account_group (group_from sessions []))
