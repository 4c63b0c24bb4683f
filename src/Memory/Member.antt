-- ===== src/Memory/Member.antt =====
-- internal/memory/repository.go and governance.go: principals and the members of a tenant.
pub mod Owners
pub mod Roll
pub mod Admins
use Prim.Native.String.{◌++◌ as append}
use asteria_drive.Prelude.{
  ℕ, String, len, Bool, true, false, Option, none, some, List, [], ◌∷◌, ◌+◌, ◌&&◌, ◌||◌, ltb, not,
  ◌==◌, string_eq, nat_eq, length, filter, sort_by, truncate, if◌then◌else◌,
}
use asteria_drive.Dict.{Dict, get, get_or, put, delete, values, any_entry, delete_where}
use asteria_drive.Text.{str_ltb, starts_with, ends_with}
use asteria_drive.Result.{Result, ok, err, fail, ErrorCode}
use asteria_drive.Types.Access.{
  AccessRole, owner, admin, role_eq, role_text, valid_access_role, MemberStatus, active,
  member_status_eq, member_status_text, valid_member_status, PrincipalRecord, OidcMemberSeed,
  UpdateMemberCommand, DeleteMemberCommand, Tenant, no_tenant, unset, no_status,
}
use asteria_drive.Types.Group.{AuditEvent}
use asteria_drive.Types.Node.{CursorPosition}
use asteria_drive.Memory.State.{
  Repository, Outcome, accept, reject, principal_key, member_key, after_member_position,
  active_owner_count,
}
use asteria_drive.Memory.Audit.{CallContext, audit_event, audited, keep}

-- The seed names another identity than the one that its principal has.
abbrev is_mapped_elsewhere : OidcMemberSeed → PrincipalRecord → Bool
is_mapped_elsewhere seed p =
    p.identity.principal_id == seed.principal_id
    && (not (p.issuer == seed.issuer) || not (p.subject == seed.subject))

abbrev pub seeded_principal : OidcMemberSeed → PrincipalRecord
seeded_principal seed = record {
  identity = record { tenant_id = seed.tenant_id; principal_id = seed.principal_id };
  issuer = seed.issuer;
  subject = seed.subject;
  display_name = seed.display_name;
  tenant_display_name = "";
  role = unset;
  status = no_status;
}

-- The second half of `EnsureOIDCMember`, once the principal is known.
unfoldable pub ensure_membership : OidcMemberSeed → Tenant → Repository → Outcome PrincipalRecord
ensure_membership seed tenant r =
    elim (get r.members (member_key seed.tenant_id seed.principal_id)) [
      | some m ↦ accept m r
      | none ↦
          let m = record (seeded_principal seed) {
            tenant_display_name = tenant.display_name;
            role = seed.role;
            status = active;
          } in
          accept m
            (record r { members = put r.members (member_key seed.tenant_id seed.principal_id) m })
    ]

unfoldable pub ensure_oidc_member : OidcMemberSeed → Repository → Outcome PrincipalRecord
ensure_oidc_member seed r =
    if seed.tenant_id == ""
      || seed.principal_id == ""
      || seed.issuer == ""
      || seed.subject == ""
      || not (valid_access_role seed.role)
    then reject ErrorCode.invalid_request r
    else elim (get r.tenants seed.tenant_id) [
      | none ↦ reject ErrorCode.not_found r
      | some tenant ↦ elim (get r.principals (principal_key seed.issuer seed.subject)) [
        | some p ↦
            if p.identity.principal_id == seed.principal_id
            then ensure_membership seed tenant r
            else reject ErrorCode.name_conflict r
        | none ↦
            if any_entry (λ _ p. is_mapped_elsewhere seed p) r.principals
            then reject ErrorCode.name_conflict r
            else ensure_membership seed tenant (record r {
              principals =
                  put r.principals (principal_key seed.issuer seed.subject) (seeded_principal seed);
            })
      ]
    ]

unfoldable pub resolve_oidc_principal :
    String → String → String → Repository → Result PrincipalRecord
resolve_oidc_principal issuer subject tenant_id r =
    elim (get r.principals (principal_key issuer subject)) [
      | none ↦ fail ErrorCode.forbidden
      | some p ↦ elim (get r.members (member_key tenant_id p.identity.principal_id)) [
        | none ↦ fail ErrorCode.forbidden
        | some m ↦ if m.status == active then ok m else fail ErrorCode.forbidden
      ]
    ]

unfoldable pub set_oidc_member_status :
    String → String → MemberStatus → Repository → Outcome (Unit {0})
set_oidc_member_status tenant_id principal_id status r =
    if tenant_id == "" || principal_id == "" || not (valid_member_status status)
    then reject ErrorCode.invalid_request r
    else elim (get r.members (member_key tenant_id principal_id)) [
      | none ↦ reject ErrorCode.not_found r
      | some m ↦ accept tt (record r {
        members = put r.members (member_key tenant_id principal_id) (record m { status = status });
      })
    ]

unfoldable pub list_members :
    String → CursorPosition → ℕ → Repository → Result (List PrincipalRecord × Bool)
list_members tenant_id after limit r = elim (get r.tenants tenant_id) [
  | none ↦ fail ErrorCode.not_found
  | some _ ↦
      let items =
        sort_by (λ a b. str_ltb a.identity.principal_id b.identity.principal_id)
          (filter (λ m. m.identity.tenant_id == tenant_id && after_member_position m after)
            (values r.members)) in
      ok (truncate limit items, ltb limit (length items))
]

-- `managingActor`
unfoldable pub managing_actor : Repository → String → String → AccessRole → Bool
managing_actor r tenant_id principal_id role =
    elim (get r.members (member_key tenant_id principal_id)) [
      | none ↦ false
      | some m ↦ m.status == active && m.role == role && (role == owner || role == admin)
    ]

abbrev pub given : {A : Type 0} → Option A → (A → Bool) → Bool
given none test = false
given (some a) test = test a

abbrev is_none : {A : Type 0} → Option A → Bool
is_none none = true
is_none (some a) = false

abbrev or_value : {A : Type 0} → Option A → A → A
or_value none a = a
or_value (some b) a = b

-- The tests of `UpdateMember` on the command alone, the first `if`.
unfoldable pub invalid_update : UpdateMemberCommand → Bool
invalid_update c =
    c.tenant_id == ""
    || c.principal_id == ""
    || c.actor_principal_id == ""
    || not (valid_access_role c.actor_role)
    || (is_none c.role && is_none c.status)
    || given c.role (λ role. not (valid_access_role role))
    || given c.status (λ status. not (valid_member_status status))

unfoldable pub is_active_owner : PrincipalRecord → Bool
is_active_owner m = m.role == owner && m.status == active

-- The member as the command asks for.
unfoldable pub changed : UpdateMemberCommand → String → PrincipalRecord → PrincipalRecord
changed c tenant_display_name m = record m {
  role = or_value c.role m.role;
  status = or_value c.status m.status;
  tenant_display_name = tenant_display_name;
}

abbrev pub member_event : UpdateMemberCommand → PrincipalRecord → AuditEvent
member_event c m =
    audit_event c.tenant_id c.actor_principal_id "tenant.member.updated" "principal" c.principal_id
      c.now (("role", role_text m.role) ∷ ("status", member_status_text m.status) ∷ [])

unfoldable pub update_member :
    CallContext → UpdateMemberCommand → Repository → Outcome PrincipalRecord
update_member ctx c r =
    if invalid_update c
    then reject ErrorCode.invalid_request r
    else if not (managing_actor r c.tenant_id c.actor_principal_id c.actor_role)
    then reject ErrorCode.forbidden r
    else elim (get r.members (member_key c.tenant_id c.principal_id)) [
      | none ↦ reject ErrorCode.not_found r
      | some m ↦
          if c.actor_role == admin && (m.role == owner || given c.role (λ role. role == owner))
          then reject ErrorCode.forbidden r
          else let m' = changed c (get_or no_tenant r.tenants c.tenant_id).display_name m in
            if is_active_owner m
              && not (is_active_owner m')
              && active_owner_count r c.tenant_id c.principal_id == 0
            then reject ErrorCode.invalid_state r
            else audited ctx (member_event c m') keep m'
                (record r { members = put r.members (member_key c.tenant_id c.principal_id) m' })
    ]

unfoldable pub group_member_key : String → String → String → String
group_member_key tenant_id group_id principal_id =
    append tenant_id (append "/" (append group_id (append "/" principal_id)))

unfoldable pub has_member_suffix : String → String → String → Bool
has_member_suffix key tenant_id principal_id =
    ltb (len tenant_id + len principal_id + 2) (len key)
    && starts_with key (append tenant_id "/")
    && ends_with key principal_id

-- The group memberships that a deleted member loses.
unfoldable pub is_membership_of : String → String → String → Bool
is_membership_of tenant_id principal_id key =
    key == group_member_key tenant_id "" principal_id
    || has_member_suffix key tenant_id principal_id

unfoldable pub delete_member : CallContext → DeleteMemberCommand → Repository → Outcome (Unit {0})
delete_member ctx c r =
    if not (managing_actor r c.tenant_id c.actor_principal_id c.actor_role)
    then reject ErrorCode.forbidden r
    else elim (get r.members (member_key c.tenant_id c.principal_id)) [
      | none ↦ reject ErrorCode.not_found r
      | some m ↦
          if c.actor_role == admin && m.role == owner
          then reject ErrorCode.forbidden r
          else if is_active_owner m && active_owner_count r c.tenant_id c.principal_id == 0
          then reject ErrorCode.invalid_state r
          else audited ctx
              (audit_event c.tenant_id c.actor_principal_id "tenant.member.deleted" "principal"
                c.principal_id c.now (("role", role_text m.role) ∷ []))
              keep tt
              (record r {
                members = delete r.members (member_key c.tenant_id c.principal_id);
                group_members =
                    delete_where (λ key _. is_membership_of c.tenant_id c.principal_id key)
                      r.group_members;
              })
    ]
