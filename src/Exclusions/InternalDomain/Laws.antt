-- ===== src/Exclusions/InternalDomain/Laws.antt =====
-- packages/shared/src/exclusions/internal-domain.ts: domains that were read from addresses.
use growthmind.Prelude.{
  subst, split_on-stop, split_on-other, ℕ, suc, ◌≤◌, ◌≡◌, refl, Text, true, false, ◌==◌, some, List,
  [], ◌∷◌, ◌++◌, All, length, is_empty, starts_with, text_includes, trim, split_on, onto_first,
  Lacks, split_on-Lacks, split_on_filled, join_with, join_with-split_on, length-onto_first, arith,
  Bool-cases, inl, inr,
}
use growthmind.Platform.{Platform}
use growthmind.Exclusions.InternalDomain.{
  at_sign, full_stop, ends_with_unit, checked_domain, domain_of_parts, email_domain_of,
}

abbrev pub IsFilled : Text → Type 0
IsFilled s = is_empty s ≡ false

-- Two labels or more, none of them empty.
abbrev pub IsDomain : Text → Type 0
IsDomain domain =
    All IsFilled (split_on full_stop domain) × (2 ≤ length (split_on full_stop domain))

All-onto_first :
    (c : ℕ) (segments : List Text) → All IsFilled segments → All IsFilled (onto_first c segments)
All-onto_first c [] h = (refl, tt)
All-onto_first c (s ∷ ss) h = (refl, h.1)

abbrev IsTidy : Text → Type 0
IsTidy s =
    (is_empty s ≡ false)
    × (starts_with s (full_stop ∷ []) ≡ false)
    × (ends_with_unit full_stop s ≡ false)
    × (text_includes s (full_stop ∷ full_stop ∷ []) ≡ false)

-- What follows the first unit of a tidy text, if that is no full stop again.
IsTidy-tail : (c d : ℕ) (s : Text) → IsTidy (c ∷ d ∷ s) → (d == full_stop) ≡ false → IsTidy (d ∷ s)
unfolding starts_with text_includes
IsTidy-tail c d s h e = (refl, ground arith, h.2, ground arith)

IsTidy-after_stop : (c d : ℕ) (s : Text) → IsTidy (c ∷ d ∷ s) → (d == full_stop) ≡ true → IsTidy s
unfolding starts_with text_includes
IsTidy-after_stop c d [] h e = ground arith
IsTidy-after_stop c d (x ∷ s) h e = (refl, ground arith, h.2, ground arith)

not_stop_first : (c : ℕ) (s : Text) → IsTidy (c ∷ s) → (c == full_stop) ≡ false
unfolding starts_with
not_stop_first c s h = ground arith

tidy-IsFilled : (s : Text) → IsTidy s → All IsFilled (split_on full_stop s)
tidy-IsFilled [] h = cc
tidy-IsFilled (c ∷ []) h =
    rw (split_on-other full_stop c [] (not_stop_first c [] h)) (unfold split_on in (refl, tt))
tidy-IsFilled (c ∷ d ∷ s) h =
    rw (split_on-other full_stop c (d ∷ s) (not_stop_first c (d ∷ s) h))
      (elim (Bool-cases (d == full_stop)) [
        | inl e ↦
            rw (split_on-stop full_stop d s e) (refl, tidy-IsFilled s (IsTidy-after_stop c d s h e))
        | inr e ↦
            All-onto_first c (split_on full_stop (d ∷ s))
              (tidy-IsFilled (d ∷ s) (IsTidy-tail c d s h e))
      ])

filled-length : (ss : List Text) → is_empty ss ≡ false → 2 ≤ suc (length ss)
filled-length [] h = cc
filled-length (s ∷ ss) h = omega arith

stop-labels :
    (s : Text) → text_includes s (full_stop ∷ []) ≡ true → 2 ≤ length (split_on full_stop s)
unfolding text_includes starts_with
stop-labels [] h = cc
stop-labels (c ∷ s) h = elim (Bool-cases (c == full_stop)) [
  | inl e ↦
      rw (split_on-stop full_stop c s e)
        (filled-length (split_on full_stop s) (split_on_filled full_stop s))
  | inr e ↦
      rw
        (
          split_on-other full_stop c s e,
          length-onto_first c (split_on full_stop s) (split_on_filled full_stop s),
        )
        (stop-labels s (ground arith))
]

checked_tests :
    (domain : Text) {d : Text}
    → checked_domain domain ≡ some d
    → (domain ≡ d) × IsTidy domain × (text_includes domain (full_stop ∷ []) ≡ true)
unfolding checked_domain
checked_tests domain h = ground arith

checked_domain-IsDomain :
    (domain : Text) {d : Text} → checked_domain domain ≡ some d → (domain ≡ d) × IsDomain domain
checked_domain-IsDomain domain h =
    let (same_text, tidy, dotted) = checked_tests domain h in
    (same_text, (tidy-IsFilled domain tidy, stop-labels domain dotted))

-- The address is a local part and a domain, with one at sign between them.
abbrev pub IsAddress : Text → Text → Text → Type 0
IsAddress address local_part domain =
    (address ≡ local_part ++ at_sign ∷ domain)
    × IsFilled local_part
    × Lacks at_sign local_part
    × Lacks at_sign domain

module _ (W : Platform) where
  domain_of_parts-IsDomain :
      (parts : List Text) {d : Text}
      → All (Lacks at_sign) parts
      → domain_of_parts W parts ≡ some d
      → (local_part : Text) × (domain : Text) × IsAddress
          (join_with at_sign parts)
          local_part
          domain
        × (W.to_lower_case domain ≡ d)
        × IsDomain d
  unfolding domain_of_parts join_with
  domain_of_parts-IsDomain [] l h = cc
  domain_of_parts-IsDomain (local_part ∷ []) l h = cc
  domain_of_parts-IsDomain (local_part ∷ domain ∷ []) {d} l h =
      elim (Bool-cases (is_empty local_part)) [
        | inl e ↦ cc (rw e at h)
        | inr e ↦
            let (same_text, is_domain) =
              checked_domain-IsDomain (W.to_lower_case domain) (rw e at h) in
            (
              local_part,
              domain,
              (refl, e, l.0, l.1.0),
              same_text,
              subst IsDomain same_text is_domain,
            )
      ]
  domain_of_parts-IsDomain (a ∷ b ∷ c ∷ rest) l h = cc

  -- A domain that is read from an address is what stands, in lower case, behind its one at sign, with a
  -- local part before it; it has two labels or more, none of them empty.
  pub email_domain_of-IsDomain :
      (email : Text) {d : Text}
      → email_domain_of W (some email) ≡ some d
      → (local_part : Text) × (domain : Text) × IsAddress (trim email) local_part domain
        × (W.to_lower_case domain ≡ d)
        × IsDomain d
  unfolding email_domain_of
  email_domain_of-IsDomain email {d} h =
      let parts = split_on at_sign (trim email) in
      let read : domain_of_parts W parts ≡ some d = ground arith in
      let (local_part, domain, address, lower, is_domain) =
        domain_of_parts-IsDomain parts (split_on-Lacks at_sign (trim email)) read in
      (
        local_part,
        domain,
        subst (λ address. IsAddress address local_part domain)
            (join_with-split_on at_sign (trim email)) address,
        lower,
        is_domain,
      )
