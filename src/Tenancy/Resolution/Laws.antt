-- ===== src/Tenancy/Resolution/Laws.antt =====
-- packages/shared/src/tenancy/derive-tenant-context.ts: the memberships that a request acts by.
use growthmind.Prelude.{
  find?-Any, find?_total, length, length-to_sorted, any_imply, &&-eq-true, subst, ◌⊎◌, ◌≡◌, refl,
  sym, ◌∙◌, Text, text_eq_iff, Bool, true, false, not, ◌&&◌, Option, none, some, List, [], ◌∷◌, All,
  Any, any, all, find?, is_empty, Returns, to_sorted, any-to_sorted, all-to_sorted,
  to_sorted-IsSorted, IsSorted, IsOrder, IsRanking-then, IsRanking-numbers, IsRanking-texts,
  order-of_ranking, is_after, flip_sign, Sign, before, same, after, arith, Bool-cases, Option-cases,
  inl, inr,
}
use mathlib.Core.Path.{fun_ext}
use growthmind.Tenancy.Context.{TenantContext, Membership, TenantSession, TenantResolutionInput}
use growthmind.Tenancy.Resolution.{
  is_of, compare_memberships, first_organization, is_live_member, resolve_active_organization,
  context_of, context_in, derive_tenant_context,
}

memberships_order : IsOrder compare_memberships
memberships_order = order-of_ranking (
    IsRanking-then (IsRanking-numbers (λ (m : Membership). m.created_at))
      (IsRanking-texts (λ (m : Membership). m.organization_id)))

not_after_itself : (s : Sign) → s ≡ flip_sign s → is_after s ≡ false
not_after_itself before h = refl
not_after_itself same h = refl
not_after_itself after h = cc

-- Nobody joined before, or on the same date with an identifier that comes first.
abbrev pub is_oldest : List Membership → Membership → Bool
is_oldest memberships m = all memberships (λ n. not (is_after (compare_memberships m n)))

All-not_after :
    (m : Membership) (ms : List Membership)
    → All (λ n. is_after (compare_memberships m n) ≡ false) ms
    → is_oldest ms m ≡ true
All-not_after m [] h = refl
All-not_after m (n ∷ ms) h = rw (h.0, All-not_after m ms h.1)

first_is_oldest :
    (m : Membership) (ms : List Membership)
    → IsSorted compare_memberships (m ∷ ms)
    → is_oldest (m ∷ ms) m ≡ true
first_is_oldest m ms h =
    All-not_after m (m ∷ ms)
      (not_after_itself (compare_memberships m m) (memberships_order.flips m m), h.0)

sorted_first_oldest :
    (sorted : List Membership) {organization : Text}
    → IsSorted compare_memberships sorted
    → first_organization sorted ≡ some organization
    → any sorted (λ m. is_of organization m && is_oldest sorted m) ≡ true
sorted_first_oldest [] h e = cc
sorted_first_oldest (m ∷ ms) {organization} h e =
    let same_text : m.organization_id ≡ organization = ground arith in
    let first : is_of organization m ≡ true =
      (text_eq_iff m.organization_id organization).1 same_text in
    rw (first, first_is_oldest m ms h)

pub first_organization_oldest :
    (ms : List Membership) {organization : Text}
    → first_organization (to_sorted compare_memberships ms) ≡ some organization
    → any ms (λ m. is_of organization m && is_oldest ms m) ≡ true
first_organization_oldest ms {organization} e =
    let found =
      sorted_first_oldest (to_sorted compare_memberships ms)
        (to_sorted-IsSorted compare_memberships memberships_order ms) e in
    let among =
      any-to_sorted compare_memberships
        (λ m. is_of organization m && is_oldest (to_sorted compare_memberships ms) m) ms in
    let everyone : (λ (m : Membership). is_oldest (to_sorted compare_memberships ms) m)
        ≡ is_oldest ms =
      fun_ext (λ m.
        all-to_sorted compare_memberships (λ n. not (is_after (compare_memberships m n))) ms) in
    subst (λ (oldest : Membership → Bool). any ms (λ m. is_of organization m && oldest m) ≡ true)
      everyone (sym among ∙ found)

-- The organisation that is resolved is the active one where the user is still a member of it, and
-- otherwise the one that was joined first of all.
pub resolve_active_organization_lem :
    (ms : List Membership) (active : Option Text) {organization : Text}
    → resolve_active_organization ms active ≡ some organization
    → ((is_live_member ms active ≡ true) × (active ≡ some organization))
      ⊎ ((is_live_member ms active ≡ false)
          × (any ms (λ m. is_of organization m && is_oldest ms m) ≡ true))
unfolding resolve_active_organization
resolve_active_organization_lem [] active h = cc
resolve_active_organization_lem (m ∷ ms) active h =
    elim (Bool-cases (is_live_member (m ∷ ms) active)) [
      | inl e ↦ inl (e, rw e at h)
      | inr e ↦ inr (e, first_organization_oldest (m ∷ ms) (rw e at h))
    ]

-- The context is that of one of the memberships.
abbrev pub IsOfMembership : TenantContext → Membership → Type 0
IsOfMembership ctx m =
    (m.organization_id ≡ ctx.organization_id)
    × (m.organization_name ≡ ctx.organization_name)
    × (m.role ≡ ctx.role)

Any-imply :
    {A : Type 0} (P Q : A → Type 0) (xs : List A) → ((x : A) → P x → Q x) → Any P xs → Any Q xs
Any-imply P Q [] f h = h
Any-imply P Q (x ∷ xs) f (inl p) = inl (f x p)
Any-imply P Q (x ∷ xs) f (inr h) = inr (Any-imply P Q xs f h)

context_of_member :
    (session : TenantSession) (p : Membership → Bool) (ms : List Membership) {ctx : TenantContext}
    → context_of session (find? p ms) ≡ some ctx
    → (ctx.user_id ≡ session.user_id) × Any (IsOfMembership ctx) ms
context_of_member session p ms {ctx} h = elim (Option-cases (find? p ms)) [
  | inl e ↦ cc (rw e at h)
  | inr (m, e) ↦
      let found : context_of session (some m) ≡ some ctx = rw e at h in
      (
        ground arith,
        Any-imply (λ y. (y ≡ m) × (p y ≡ true)) (IsOfMembership ctx) ms
            (λ y same_member. rw same_member.0 (ground arith, ground arith, ground arith))
            (find?-Any p ms e),
      )
]

-- Who a request acts as: the session's user, in an organisation that the user is a member of, under
-- the name and the role of that membership.
pub derive_tenant_context_member :
    (input : TenantResolutionInput) {ctx : TenantContext}
    → derive_tenant_context input ≡ some ctx
    → (ctx.user_id ≡ input.session.user_id) × Any (IsOfMembership ctx) input.memberships
unfolding derive_tenant_context
derive_tenant_context_member input {ctx} h =
    elim (Option-cases
      (resolve_active_organization input.memberships input.session.active_organization_id)) [
        | inl e ↦ cc (rw e at h)
        | inr (o, e) ↦ context_of_member input.session (is_of o) input.memberships (rw e at h)
      ]

first_organization_total :
    (sorted : List Membership) → is_empty sorted ≡ false → Returns (first_organization sorted)
first_organization_total [] h = cc
first_organization_total (m ∷ ms) h = (m.organization_id, refl)

filled-of_length :
    {A : Type 0} (xs ys : List A)
    → length xs ≡ length ys
    → is_empty ys ≡ false
    → is_empty xs ≡ false
filled-of_length [] [] e h = h
filled-of_length [] (y ∷ ys) e h = absurd (omega (arith, e))
filled-of_length (x ∷ xs) ys e h = refl

live :
    (m : Membership) (ms : List Membership) (active : Option Text)
    → is_live_member (m ∷ ms) active ≡ true
    → (organization : Text) × (resolve_active_organization (m ∷ ms) active ≡ some organization)
      × (any (m ∷ ms) (is_of organization) ≡ true)
unfolding resolve_active_organization
live m ms none e = cc
live m ms (some o) e = (o, rw e refl, e)

resolve_total :
    (m : Membership) (ms : List Membership) (active : Option Text)
    → (organization : Text) × (resolve_active_organization (m ∷ ms) active ≡ some organization)
      × (any (m ∷ ms) (is_of organization) ≡ true)
unfolding resolve_active_organization
resolve_total m ms active = elim (Bool-cases (is_live_member (m ∷ ms) active)) [
  | inl e ↦ live m ms active e
  | inr e ↦
      let sorted = to_sorted compare_memberships (m ∷ ms) in
      let (o, first) =
        first_organization_total sorted
          (filled-of_length sorted (m ∷ ms) (length-to_sorted compare_memberships (m ∷ ms)) refl) in
      (
        o,
        rw e first,
        any_imply (m ∷ ms) (λ n. is_of o n && is_oldest (m ∷ ms) n) (is_of o)
            (λ n both. (&&-eq-true (is_of o n) (is_oldest (m ∷ ms) n) both).0)
            (first_organization_oldest (m ∷ ms) first),
      )
]

context_of_total :
    (session : TenantSession) (o : Option Membership) → Returns o → Returns (context_of session o)
context_of_total session none (m, e) = cc
context_of_total session (some m) r = (
  record {
    user_id = session.user_id;
    organization_id = m.organization_id;
    organization_name = m.organization_name;
    role = m.role;
  },
  refl,
)

total_of :
    (session : TenantSession) (ms : List Membership)
    → is_empty ms ≡ false
    → Returns (
        context_in
          (record { session = session; memberships = ms })
          (resolve_active_organization ms session.active_organization_id))
total_of session [] h = cc
total_of session (m ∷ ms) h =
    let (o, e, among) = resolve_total m ms session.active_organization_id in
    rw e
      (context_of_total session (find? (is_of o) (m ∷ ms)) (find?_total (is_of o) (m ∷ ms) among))

-- A user with a membership always gets a context, whatever organisation the session names.
pub derive_tenant_context_total :
    (input : TenantResolutionInput)
    → is_empty input.memberships ≡ false
    → Returns (derive_tenant_context input)
unfolding derive_tenant_context
derive_tenant_context_total input h = total_of input.session input.memberships h
