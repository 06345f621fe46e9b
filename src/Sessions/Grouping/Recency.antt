-- ===== src/Sessions/Grouping/Recency.antt =====
-- packages/shared/src/sessions/grouping.ts: the instant at which an account was last seen.
use growthmind.Prelude.{
  text_left, text_right, ℕ, ◌≡◌, refl, ◌∙◌, ap, max, Text, text_eq, text_eq_iff, text_eq_refl,
  text_eq_comm, Bool, false, not, ◌&&◌, Option, none, some, List, [], ◌∷◌, map, map_get, map_set,
  map_get-map_set, filter, All, AllEntries, AllEntries-imply, keys, Distinct, Distinct-map_set,
  arith, Bool-cases, inl, inr,
}
use growthmind.Platform.{Platform}
use growthmind.Exclusions.FreeMail.{is_free_mail_domain}
use growthmind.Sessions.Grouping.{
  GroupableSessionFact, DomainGroup, AccountGroup, group_with, to_account_group, group_from,
}

-- The latest start of some sessions, and 0 for none.
pub latest : List GroupableSessionFact → ℕ
latest [] = 0
latest (session ∷ sessions) = max session.started_at (latest sessions)

abbrev recency_or_zero : Option DomainGroup → ℕ
recency_or_zero none = 0
recency_or_zero (some g) = g.most_recent_session_at

recency-group_with :
    (session : GroupableSessionFact) (o : Option DomainGroup)
    → (group_with session o).most_recent_session_at ≡ max (recency_or_zero o) session.started_at
recency-group_with session none = ground arith
recency-group_with session (some g) = ground arith

found_again :
    {V : Type 0} (k : Text) (v : V) (all_entries m : List (Text × V))
    → All (λ (j : Text). text_eq j k ≡ false) (keys m)
    → AllEntries (λ d w. map_get text_eq d all_entries ≡ some w) m
    → AllEntries (λ d w. map_get text_eq d ((k, v) ∷ all_entries) ≡ some w) m
unfolding map_get
found_again k v all_entries [] h q = tt
found_again k v all_entries ((j, w) ∷ m) h q =
    (rw (text_eq_comm k j ∙ h.0) q.0, found_again k v all_entries m h.1 q.1)

-- Where a key stands once, each entry is the one that is found.
found_entries :
    {V : Type 0} (m : List (Text × V))
    → Distinct m
    → AllEntries (λ d w. map_get text_eq d m ≡ some w) m
unfolding map_get
found_entries [] h = tt
found_entries ((k, v) ∷ m) h =
    (rw (text_eq_refl k) refl, found_again k v m m h.0 (found_entries m h.1))

module _ (W : Platform) where
  abbrev pub belongs : Text → GroupableSessionFact → Bool
  belongs domain session =
      not (is_free_mail_domain W session.identity_email_domain)
      && text_eq session.identity_email_domain domain

  Distinct-group_from :
      (sessions : List GroupableSessionFact) (groups : List (Text × DomainGroup))
      → Distinct groups
      → Distinct (group_from W sessions groups)
  unfolding group_from
  Distinct-group_from [] groups h = h
  Distinct-group_from (session ∷ sessions) groups h =
      elim (Bool-cases (is_free_mail_domain W session.identity_email_domain)) [
        | inl e ↦ rw e (Distinct-group_from sessions groups h)
        | inr e ↦ rw e (
            Distinct-group_from sessions _ (
              Distinct-map_set session.identity_email_domain
                (group_with session (map_get text_eq session.identity_email_domain groups)) groups
                h))
      ]

  recency-group_from :
      (domain : Text) (sessions : List GroupableSessionFact) (groups : List (Text × DomainGroup))
      → recency_or_zero (map_get text_eq domain (group_from W sessions groups))
        ≡ max
            (recency_or_zero (map_get text_eq domain groups))
            (latest (filter (belongs domain) sessions))
  unfolding group_from latest
  recency-group_from domain [] groups = ground arith
  recency-group_from domain (session ∷ sessions) groups =
      elim (Bool-cases (is_free_mail_domain W session.identity_email_domain)) [
        | inl e ↦ rw e (recency-group_from domain sessions groups)
        | inr e ↦
            let key = session.identity_email_domain in
            let g = group_with session (map_get text_eq key groups) in
            let later = map_set text_eq key g groups in
            let got = map_get-map_set text_eq text_left text_right key domain g groups in
            let rest = recency-group_from domain sessions later in
            rw e (elim (Bool-cases (text_eq key domain)) [
              | inl same ↦
                  let now = rw same at got in
                  let found =
                    ap (λ k. recency_or_zero (map_get text_eq k groups))
                      ((text_eq_iff key domain).0 same) in
                  rw same (
                    ground (
                      arith,
                      rw now at rest,
                      found,
                      recency-group_with session (map_get text_eq key groups),
                    ))
              | inr other ↦ rw other (
                  rest
                  ∙ ap (λ o. max (recency_or_zero o) (latest (filter (belongs domain) sessions)))
                      (rw other at got))
            ])
      ]

  -- What an account says of the sessions of its domain.
  abbrev pub IsLatest : List GroupableSessionFact → AccountGroup → Type 0
  IsLatest sessions g = g.most_recent_session_at ≡ latest (filter (belongs g.domain) sessions)

  accounts-IsLatest :
      (sessions : List GroupableSessionFact) (m : List (Text × DomainGroup))
      → AllEntries (λ d g. g.most_recent_session_at ≡ latest (filter (belongs d) sessions)) m
      → All (IsLatest sessions) (map to_account_group m)
  accounts-IsLatest sessions [] h = tt
  accounts-IsLatest sessions ((d, g) ∷ m) h = (h.0, accounts-IsLatest sessions m h.1)

  pub group_from-IsLatest :
      (sessions : List GroupableSessionFact)
      → All (IsLatest sessions) (map to_account_group (group_from W sessions []))
  unfolding map_get
  group_from-IsLatest sessions =
      let m = group_from W sessions [] in
      accounts-IsLatest sessions m (
        AllEntries-imply (λ d g. map_get text_eq d m ≡ some g)
          (λ d g. g.most_recent_session_at ≡ latest (filter (belongs d) sessions)) m
          (λ d g h.
            let found = recency-group_from d sessions [] in
            let here = ap recency_or_zero h in omega (arith, found, here))
          (found_entries m (Distinct-group_from sessions [] tt)))
