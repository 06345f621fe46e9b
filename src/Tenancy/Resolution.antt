-- ===== src/Tenancy/Resolution.antt =====
-- packages/shared/src/tenancy/resolve-active-organization.ts, derive-tenant-context.ts: the organisation
-- that a request acts for. The input's schema asks nothing beyond the types.
pub mod Laws
use growthmind.Prelude.{
  false, Text, text_eq, Bool, Option, none, some, List, [], ◌∷◌, any, find?, to_sorted, Sign,
  compare_numbers, compare_texts, ◌then_by◌, if◌then◌else◌,
}
use growthmind.Tenancy.Context.{TenantContext, Membership, TenantSession, TenantResolutionInput}

abbrev pub is_of : Text → Membership → Bool
is_of organization_id membership = text_eq membership.organization_id organization_id

-- By the date of joining, then by the organisation's identifier.
abbrev pub compare_memberships : Membership → Membership → Sign
compare_memberships a b =
    compare_numbers a.created_at b.created_at
    then_by compare_texts a.organization_id b.organization_id

-- `const [oldest] = ...; return oldest.organizationId`, of a list that is not empty.
abbrev pub first_organization : List Membership → Option Text
first_organization [] = none
first_organization (oldest ∷ _) = some oldest.organization_id

abbrev pub is_live_member : List Membership → Option Text → Bool
is_live_member memberships none = false
is_live_member memberships (some active) = any memberships (is_of active)

unfoldable pub resolve_active_organization : List Membership → Option Text → Option Text
unfolding to_sorted text_eq compare_texts
resolve_active_organization [] session_active_org_id = none
resolve_active_organization (m ∷ ms) session_active_org_id =
    if is_live_member (m ∷ ms) session_active_org_id
    then session_active_org_id
    else first_organization (to_sorted compare_memberships (m ∷ ms))

abbrev pub context_of : TenantSession → Option Membership → Option TenantContext
context_of session none = none
context_of session (some membership) = some (record {
  user_id = session.user_id;
  organization_id = membership.organization_id;
  organization_name = membership.organization_name;
  role = membership.role;
})

abbrev pub context_in : TenantResolutionInput → Option Text → Option TenantContext
context_in input none = none
context_in input (some active) = context_of input.session (find? (is_of active) input.memberships)

unfoldable pub derive_tenant_context : TenantResolutionInput → Option TenantContext
unfolding resolve_active_organization
derive_tenant_context input =
    context_in input
      (resolve_active_organization input.memberships input.session.active_organization_id)
