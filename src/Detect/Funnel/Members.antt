-- ===== src/Detect/Funnel/Members.antt =====
-- packages/core/src/detect/funnel-dropoff-cohorts.ts: the sessions that went on from a page, described by
-- how their walk splits at its first visit.
use growthmind.Prelude.{
  ◌≡◌, refl, sym, ◌∙◌, ap, Text, text_eq, text_eq_iff, text_eq_refl, Bool, true, false, not, ◌&&◌,
  List, [], ◌∷◌, ◌++◌, filter, any, ◌↔◌, arith, Bool-cases, inl, inr,
}
use growthmind.Detect.Funnel.{includes_page, after_first_visit}

-- After the first visit of the origin the walk has another page, which is one of the destinations.
pub record GoesOn (origin : Text) (destinations walk : List Text) : Type 0 where
  pub before : List Text
  pub after : List Text
  pub page : Text
  pub visited : walk ≡ before ++ origin ∷ after
  pub first_visit : includes_page before origin ≡ false
  pub visited_after : includes_page after page ≡ true
  pub is_destination : includes_page destinations page ≡ true
  pub elsewhere : text_eq page origin ≡ false

split_walk :
    (origin : Text) (walk : List Text) (q : Text → Bool)
    → any (after_first_visit origin walk) q ≡ true
    → (before : List Text) × (after : List Text) × (walk ≡ before ++ origin ∷ after)
      × (includes_page before origin ≡ false)
      × (any after q ≡ true)
unfolding after_first_visit
split_walk origin [] q h = cc
split_walk origin (path ∷ walk) q h = elim (Bool-cases (text_eq path origin)) [
  | inl e ↦
      let same : path ≡ origin = (text_eq_iff path origin).0 e in
      ([], walk, ap (λ p. p ∷ walk) same, refl, rw e at h)
  | inr e ↦
      let (before, after, splits, fresh, found) = split_walk origin walk q (rw e at h) in
      (path ∷ before, after, ap (λ w. path ∷ w) splits, rw e fresh, found)
]

after_split :
    (origin : Text) (before after : List Text)
    → includes_page before origin ≡ false
    → after_first_visit origin (before ++ origin ∷ after) ≡ after
unfolding after_first_visit
after_split origin [] after h = rw (text_eq_refl origin) refl
after_split origin (path ∷ before) after h = elim (Bool-cases (text_eq path origin)) [
  | inl e ↦ cc (rw e at h)
  | inr e ↦ rw e (after_split origin before after (rw e at h))
]

any-found :
    (q : Text → Bool) (walk : List Text)
    → any walk q ≡ true
    → (page : Text) × (includes_page walk page ≡ true) × (q page ≡ true)
any-found q [] h = cc
any-found q (p ∷ walk) h = elim (Bool-cases (q p)) [
  | inl e ↦ (p, rw (text_eq_refl p) refl, e)
  | inr e ↦
      let (page, within, holds) = any-found q walk (rw e at h) in
      (page, ground (arith, within), holds)
]

found-any :
    (q : Text → Bool) (walk : List Text) (page : Text)
    → includes_page walk page ≡ true
    → q page ≡ true
    → any walk q ≡ true
found-any q [] page h k = cc
found-any q (p ∷ walk) page h k = elim (Bool-cases (text_eq p page)) [
  | inl e ↦ rw (ap q ((text_eq_iff p page).0 e) ∙ k) refl
  | inr e ↦ let rest = found-any q walk page (rw e at h) k in ground (arith, rest)
]

-- The destinations without the origin itself.
includes-elsewhere :
    (origin : Text) (raw : List Text) (page : Text)
    → includes_page (filter (λ d. not (text_eq d origin)) raw) page
      ≡ (includes_page raw page && not (text_eq page origin))
includes-elsewhere origin [] page = refl
includes-elsewhere origin (d ∷ raw) page = elim (Bool-cases (text_eq d page)) [
  | inl e ↦
      let same : d ≡ page = (text_eq_iff d page).0 e in
      rw same (ground (arith, text_eq_refl page, includes-elsewhere origin raw page))
  | inr e ↦ ground (arith, e, includes-elsewhere origin raw page)
]

-- The test of the code for a walk that goes on.
abbrev pub goes_on : Text → List Text → List Text → Bool
goes_on origin raw walk =
    any (after_first_visit origin walk) (includes_page (filter (λ d. not (text_eq d origin)) raw))

pub goes_on_iff :
    (origin : Text) (raw walk : List Text)
    → (goes_on origin raw walk ≡ true) ↔ GoesOn origin raw walk
goes_on_iff origin raw walk = (
  (λ h.
      let (before, after, splits, fresh, found) =
        split_walk origin walk (includes_page (filter (λ d. not (text_eq d origin)) raw)) h in
      let (page, within, holds) =
        any-found (includes_page (filter (λ d. not (text_eq d origin)) raw)) after found in
      let both = sym (includes-elsewhere origin raw page) ∙ holds in
      record {
        before = before;
        after = after;
        page = page;
        visited = splits;
        first_visit = fresh;
        visited_after = within;
        is_destination = ground (arith, both);
        elsewhere = ground (arith, both);
      }),
  (λ g.
      let at : after_first_visit origin walk ≡ g.after =
        ap (after_first_visit origin) g.visited
        ∙ after_split origin g.before g.after g.first_visit in
      rw at (
        found-any (includes_page (filter (λ d. not (text_eq d origin)) raw)) g.after g.page
          g.visited_after
          (includes-elsewhere origin raw g.page ∙ rw (g.is_destination, g.elsewhere) refl))),
)
