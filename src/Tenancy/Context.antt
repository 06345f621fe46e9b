-- ===== src/Tenancy/Context.antt =====
-- packages/shared/src/tenancy/context.ts: what is known of a request, and the tenant that it acts for.
use growthmind.Prelude.{ℕ, Text, Option, List}

pub record TenantContext : Type 0 where
  pub user_id : Text
  pub organization_id : Text
  pub organization_name : Text
  pub role : Text

pub record Membership : Type 0 where
  pub organization_id : Text
  pub organization_name : Text
  pub role : Text
  pub created_at : ℕ

pub record TenantSession : Type 0 where
  pub user_id : Text
  pub active_organization_id : Option Text

pub record TenantResolutionInput : Type 0 where
  pub session : TenantSession
  pub memberships : List Membership
