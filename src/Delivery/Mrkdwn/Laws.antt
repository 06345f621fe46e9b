-- ===== src/Delivery/Mrkdwn/Laws.antt =====
-- packages/core/src/delivery/mrkdwn.ts: what is escaped, and what fits a budget.
use growthmind.Prelude.{
  subst, ◌≢◌, ℕ, suc, ◌+◌, ◌≤◌, ◌<◌, ◌≡◌, ◌⊎◌, refl, ap, sym, ◌∙◌, Text, text, [], ◌∷◌, ◌++◌,
  length, length-append, take, ltb, ◌==◌, if◌then◌else◌, arith, Bool-cases, inl, inr, Lacks,
}
use mathlib.Core.List.{append_assoc}
use growthmind.Delivery.Mrkdwn.{
  ampersand, less_than, greater_than, replace_all, escape_mrkdwn, mrkdwn_length, prefix_from,
  mrkdwn_prefix_length,
}

-- What a unit becomes.
abbrev pub entity : ℕ → Text
entity c =
    if c == ampersand
    then text "&amp;"
    else if c == less_than
    then text "&lt;"
    else if c == greater_than
    then text "&gt;"
    else c ∷ []

replace_all-append :
    (unit : ℕ) (replacement s t : Text)
    → replace_all unit replacement (s ++ t)
      ≡ replace_all unit replacement s ++ replace_all unit replacement t
unfolding replace_all
replace_all-append unit replacement [] t = refl
replace_all-append unit replacement (c ∷ s) t =
    ap (λ r. (if c == unit then replacement else c ∷ []) ++ r)
      (replace_all-append unit replacement s t)
    ∙ sym (
        append_assoc (if c == unit then replacement else c ∷ []) (replace_all unit replacement s)
          (replace_all unit replacement t))

escape-unit : (c : ℕ) → escape_mrkdwn (c ∷ []) ≡ entity c
unfolding escape_mrkdwn
escape-unit c = elim (Bool-cases (c == ampersand)) [
  | inl e ↦ rw e refl
  | inr e ↦ elim (Bool-cases (c == less_than)) [
    | inl f ↦ rw (e, f) refl
    | inr f ↦ elim (Bool-cases (c == greater_than)) [
      | inl g ↦ rw (e, f, g) refl
      | inr g ↦ rw (e, f, g) refl
    ]
  ]
]

pub escape_mrkdwn-append :
    (s t : Text) → escape_mrkdwn (s ++ t) ≡ escape_mrkdwn s ++ escape_mrkdwn t
unfolding escape_mrkdwn
escape_mrkdwn-append s t = rw (
  replace_all-append ampersand (text "&amp;") s t,
  replace_all-append less_than (text "&lt;") (replace_all ampersand (text "&amp;") s)
      (replace_all ampersand (text "&amp;") t),
  replace_all-append greater_than (text "&gt;")
      (replace_all less_than (text "&lt;") (replace_all ampersand (text "&amp;") s))
      (replace_all less_than (text "&lt;") (replace_all ampersand (text "&amp;") t)),
)

pub escape_mrkdwn-cons : (c : ℕ) (s : Text) → escape_mrkdwn (c ∷ s) ≡ entity c ++ escape_mrkdwn s
escape_mrkdwn-cons c s =
    escape_mrkdwn-append (c ∷ []) s ∙ ap (λ e. e ++ escape_mrkdwn s) (escape-unit c)

entity-Lacks_less : (c : ℕ) → Lacks less_than (entity c)
entity-Lacks_less c = ground arith

entity-Lacks_greater : (c : ℕ) → Lacks greater_than (entity c)
entity-Lacks_greater c = ground arith

Lacks-append : (c : ℕ) (s t : Text) → Lacks c s → Lacks c t → Lacks c (s ++ t)
Lacks-append c [] t h k = k
Lacks-append c (d ∷ s) t h k = (h.0, Lacks-append c s t h.1 k)

-- No text that was escaped holds an angle bracket, so none opens a link, a mention or a broadcast.
pub escape_mrkdwn-Lacks :
    (s : Text) → Lacks less_than (escape_mrkdwn s) × Lacks greater_than (escape_mrkdwn s)
escape_mrkdwn-Lacks [] = unfold escape_mrkdwn in (tt, tt)
escape_mrkdwn-Lacks (c ∷ s) = rw (escape_mrkdwn-cons c s) (
  Lacks-append less_than (entity c) (escape_mrkdwn s) (entity-Lacks_less c)
      (escape_mrkdwn-Lacks s).0,
  Lacks-append greater_than (entity c) (escape_mrkdwn s) (entity-Lacks_greater c)
      (escape_mrkdwn-Lacks s).1,
)

-- An entity tells its unit, and where it ends.
entity-prefix : (c d : ℕ) (s t : Text) → entity c ++ s ≡ entity d ++ t → (c ≡ d) × (s ≡ t)
entity-prefix c d s t h = ground arith

entity_filled : (c : ℕ) (s : Text) → entity c ++ s ≢ []
entity_filled c s h = ground arith

escape-empty : escape_mrkdwn [] ≡ []
unfolding escape_mrkdwn
escape-empty = refl

-- Escaping loses nothing: texts that are escaped to the same text are the same.
pub escape_mrkdwn_inj : (s t : Text) → escape_mrkdwn s ≡ escape_mrkdwn t → s ≡ t
escape_mrkdwn_inj [] [] h = refl
escape_mrkdwn_inj [] (d ∷ t) h =
    absurd (entity_filled d (escape_mrkdwn t) (sym (escape_mrkdwn-cons d t) ∙ sym h ∙ escape-empty))
escape_mrkdwn_inj (c ∷ s) [] h =
    absurd (entity_filled c (escape_mrkdwn s) (sym (escape_mrkdwn-cons c s) ∙ h ∙ escape-empty))
escape_mrkdwn_inj (c ∷ s) (d ∷ t) h =
    let (same_unit, same_rest) =
      entity-prefix c d (escape_mrkdwn s) (escape_mrkdwn t)
        (sym (escape_mrkdwn-cons c s) ∙ h ∙ escape_mrkdwn-cons d t) in
    rw (same_unit, escape_mrkdwn_inj s t same_rest)

mrkdwn_length-cons :
    (c : ℕ) (s : Text) → mrkdwn_length (c ∷ s) ≡ mrkdwn_length (c ∷ []) + mrkdwn_length s
mrkdwn_length-cons c s =
    ap length (escape_mrkdwn-append (c ∷ []) s)
    ∙ length-append (escape_mrkdwn (c ∷ [])) (escape_mrkdwn s)

-- A prefix that fits what is left of the budget, and that no further unit fits behind.
abbrev pub IsLongest : ℕ → ℕ → Text → ℕ → Type 0
IsLongest budget used s n =
    (n ≤ length s)
    × (used + mrkdwn_length (take n s) ≤ budget)
    × ((n ≡ length s) ⊎ (budget < used + mrkdwn_length (take (suc n) s)))

later :
    (budget used c : ℕ) (s : Text) (n : ℕ)
    → (n ≡ length s) ⊎ (budget < used + mrkdwn_length (c ∷ []) + mrkdwn_length (take (suc n) s))
    → (suc n ≡ length (c ∷ s)) ⊎ (budget < used + mrkdwn_length (take (suc (suc n)) (c ∷ s)))
later budget used c s n (inl e) = inl (ap suc e)
later budget used c s n (inr h) = inr (omega (arith, mrkdwn_length-cons c (take (suc n) s)))

prefix_from-IsLongest :
    (budget used index : ℕ) (s : Text)
    → used ≤ budget
    → (n : ℕ) × (prefix_from budget used index s ≡ index + n) × IsLongest budget used s n
unfolding prefix_from
prefix_from-IsLongest budget used index [] h =
    (0, omega arith, rw escape-empty (omega arith, omega arith, inl refl))
prefix_from-IsLongest budget used index (c ∷ s) h =
    elim (Bool-cases (ltb budget (used + mrkdwn_length (c ∷ [])))) [
      | inl full ↦ (
        0,
        rw full (omega arith),
        (omega arith, rw escape-empty (omega arith), inr (ground arith)),
      )
      | inr fits ↦
          let (n, e, longest) =
            prefix_from-IsLongest budget (used + mrkdwn_length (c ∷ [])) (index + 1) s
              (ground arith) in
          (
            suc n,
            rw fits (omega (arith, e)),
            (
              omega arith,
              omega (arith, mrkdwn_length-cons c (take n s)),
              later budget used c s n longest.2,
            ),
          )
    ]

-- The prefix that is found fits the budget once it is escaped, and it is all of the text or the prefix
-- with one more unit does not fit.
pub mrkdwn_prefix_length-IsLongest :
    (s : Text) (budget : ℕ) → IsLongest budget 0 s (mrkdwn_prefix_length s budget)
unfolding mrkdwn_prefix_length
mrkdwn_prefix_length-IsLongest s budget =
    let (n, e, longest) = prefix_from-IsLongest budget 0 0 s (omega arith) in
    let same_length : prefix_from budget 0 0 s ≡ n = omega (arith, e) in
    subst (IsLongest budget 0 s) (sym same_length) longest
