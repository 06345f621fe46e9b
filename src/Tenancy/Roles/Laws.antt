-- ===== src/Tenancy/Roles/Laws.antt =====
-- packages/shared/src/tenancy/roles.ts: the roles that may administer an organisation.
use growthmind.Prelude.{
  ◌≡◌, ◌↔◌, ◌⊎◌, refl, ap, sym, ◌∙◌, Text, text_eq, text_eq_iff, Bool, true, false, not, ◌||◌,
  ||-true, Option, none, some, List, [], ◌∷◌, map, Any, any, filter, to_set, split_on, arith,
  Bool-cases, inl, inr,
}
use growthmind.Platform.{Platform}
use growthmind.Tenancy.Context.{TenantContext}
use growthmind.Tenancy.Roles.{
  MemberRole, owner, admin, member, role_text, same_role, administering_roles, read_role, keep_role,
  known_roles, normalise, role_separator, parse_member_roles, may_administer,
}

any-filter_kept :
    {A : Type 0} (p q : A → Bool) (xs : List A)
    → ((x : A) → q x ≡ false → p x ≡ false)
    → any (filter q xs) p ≡ any xs p
any-filter_kept p q [] h = refl
any-filter_kept p q (x ∷ xs) h = elim (Bool-cases (q x)) [
  | inl e ↦ rw e (ap (λ b. p x || b) (any-filter_kept p q xs h))
  | inr e ↦ rw (e, h x e) (any-filter_kept p q xs h)
]

same_role_eq : (a b : MemberRole) → same_role a b ≡ true → a ≡ b
same_role_eq owner owner h = refl
same_role_eq admin admin h = refl
same_role_eq member member h = refl
same_role_eq owner admin h = cc
same_role_eq owner member h = cc
same_role_eq admin owner h = cc
same_role_eq admin member h = cc
same_role_eq member owner h = cc
same_role_eq member admin h = cc

-- A test finds in the set what it finds in the list.
any-to_set :
    (p : MemberRole → Bool) (roles : List MemberRole) → any (to_set same_role roles) p ≡ any roles p
unfolding to_set
any-to_set p [] = refl
any-to_set p (r ∷ roles) = elim (Bool-cases (p r)) [
  | inl e ↦ rw e refl
  | inr e ↦ rw e (
      any-filter_kept p (λ s. not (same_role r s)) (to_set same_role roles)
        (λ s same. ap p (sym (same_role_eq r s (ground arith))) ∙ e)
      ∙ any-to_set p roles)
]

abbrev administers : MemberRole → Bool
administers role = any administering_roles (λ r. same_role r role)

-- A part that names the owner or an administrator.
abbrev pub NamesAdministrator : Text → Type 0
NamesAdministrator part = (part ≡ role_text owner) ⊎ (part ≡ role_text admin)

abbrev part_administers : Text → Bool
part_administers part = text_eq part (role_text owner) || text_eq part (role_text admin)

abbrev role_administers : Option MemberRole → Bool
role_administers none = false
role_administers (some role) = administers role

read_role_administers : (part : Text) → role_administers (read_role part) ≡ part_administers part
unfolding read_role
read_role_administers part = ground arith

keep_role-administers :
    (o : Option MemberRole) (roles : List MemberRole)
    → any (keep_role o roles) administers ≡ (role_administers o || any roles administers)
keep_role-administers none roles = refl
keep_role-administers (some role) roles = refl

known_roles_step :
    (part : Text) (parts : List Text)
    → known_roles (part ∷ parts) ≡ keep_role (read_role part) (known_roles parts)
unfolding known_roles
known_roles_step part parts = refl

known_roles-administers :
    (parts : List Text) → any (known_roles parts) administers ≡ any parts part_administers
known_roles-administers [] = unfold known_roles in refl
known_roles-administers (part ∷ parts) = rw (
  known_roles_step part parts,
  keep_role-administers (read_role part) (known_roles parts),
  read_role_administers part,
  known_roles-administers parts,
)

module _ (W : Platform) where
  administers_parts :
      (parts : List Text)
      → (any (map (normalise W) parts) part_administers ≡ true)
        ↔ Any (λ part. NamesAdministrator (normalise W part)) parts
  administers_parts [] = ((λ e. cc), λ h. absurd h)
  administers_parts (part ∷ parts) =
      let (there, back) = administers_parts parts in
      let owner_iff = text_eq_iff (normalise W part) (role_text owner) in
      let admin_iff = text_eq_iff (normalise W part) (role_text admin) in
      (
        (λ e. elim (Bool-cases (text_eq (normalise W part) (role_text owner))) [
          | inl o ↦ inl (inl (owner_iff.0 o))
          | inr other ↦ elim (Bool-cases (text_eq (normalise W part) (role_text admin))) [
            | inl a ↦ inl (inr (admin_iff.0 a))
            | inr neither ↦ inr (there (rw (other, neither) at e))
          ]
        ]),
        λ h. elim h [
          | inl named ↦ elim named [
            | inl o ↦ rw (owner_iff.1 o) refl
            | inr a ↦ ground (arith, admin_iff.1 a)
          ]
          | inr later ↦ rw (back later) (||-true (part_administers (normalise W part)))
        ],
      )

  -- A member may administer exactly if one of the parts of the role, between commas, is in lower case
  -- and without white space around it the owner's or an administrator's.
  pub may_administer_iff :
      (ctx : TenantContext)
      → (may_administer W ctx ≡ true)
        ↔ Any (λ part. NamesAdministrator (normalise W part)) (split_on role_separator ctx.role)
  unfolding may_administer parse_member_roles
  may_administer_iff ctx =
      let parts = split_on role_separator ctx.role in
      rw
        (
          any-to_set administers (known_roles (map (normalise W) parts)),
          known_roles-administers (map (normalise W) parts),
        )
        (administers_parts parts)
