-- ===== src/Tenancy/Roles.antt =====
-- packages/shared/src/tenancy/roles.ts: the roles of a principal.
pub mod Laws
use growthmind.Prelude.{
  ℕ, Text, text, text_eq, Bool, true, false, ◌||◌, Option, none, some, List, [], ◌∷◌, ◌++◌, map,
  any, head?, is_empty, trim, trim_start, trim_end, split_on, to_set, is_white_space, if◌then◌else◌,
}
use growthmind.Platform.{Platform}
use growthmind.Tenancy.Context.{TenantContext}

pub data MemberRole : Type 0 where
  owner admin member : MemberRole

abbrev pub role_text : MemberRole → Text
role_text owner = text "owner"
role_text admin = text "admin"
role_text member = text "member"

abbrev pub administering_roles : List MemberRole
administering_roles = owner ∷ admin ∷ []

abbrev pub machine_roles : List Text
machine_roles = text "api_key" ∷ text "system" ∷ []

abbrev pub role_separator : ℕ
role_separator = 44

abbrev pub same_role : MemberRole → MemberRole → Bool
same_role owner owner = true
same_role admin admin = true
same_role member member = true
same_role _ _ = false

-- `known.includes(part)`, with the role that the part then is.
unfoldable pub read_role : Text → Option MemberRole
read_role part =
    if text_eq part (role_text owner)
    then some owner
    else if text_eq part (role_text admin)
    then some admin
    else if text_eq part (role_text member)
    then some member
    else none

abbrev pub keep_role : Option MemberRole → List MemberRole → List MemberRole
keep_role none roles = roles
keep_role (some role) roles = role ∷ roles

-- `.filter((part): part is MemberRole => known.includes(part))`
unfoldable pub known_roles : List Text → List MemberRole
unfolding read_role text_eq
known_roles [] = []
known_roles (part ∷ parts) = keep_role (read_role part) (known_roles parts)

module _ (W : Platform) where
  abbrev pub normalise : Text → Text
  normalise raw = W.to_lower_case (trim raw)

  unfoldable pub parse_member_roles : Text → List MemberRole
  unfolding to_set known_roles split_on trim_start trim_end
  parse_member_roles raw =
      to_set same_role (known_roles (map normalise (split_on role_separator raw)))

  unfoldable pub is_machine_principal : TenantContext → Bool
  is_machine_principal ctx = any machine_roles (λ role. text_eq role (normalise ctx.role))

  unfoldable pub may_administer : TenantContext → Bool
  may_administer ctx =
      any (parse_member_roles ctx.role) (λ role. any administering_roles (λ r. same_role r role))

  unfoldable pub member_user_id : TenantContext → Option Text
  member_user_id ctx = if is_machine_principal ctx then none else some ctx.user_id
