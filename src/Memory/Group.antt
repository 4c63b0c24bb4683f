-- ===== src/Memory/Group.antt =====
-- internal/memory/governance.go: groups and their members.
pub mod Deletion
use Prim.Native.String.{◌++◌ as append}
use asteria_drive.Prelude.{
  String, len, Bool, true, false, none, some, List, [], ◌∷◌, ◌+◌, ◌&&◌, ltb, not, ◌==◌, string_eq,
  filter, sort_by, if◌then◌else◌,
}
use asteria_drive.Dict.{Dict, get, put, delete, values, has, any_entry, delete_where}
use asteria_drive.Text.{str_ltb, starts_with, drop_bytes}
use asteria_drive.Result.{Result, ok, fail, ErrorCode}
use asteria_drive.Types.Access.{PrincipalRecord}
use asteria_drive.Types.Group.{
  TenantGroup, CreateGroupCommand, UpdateGroupCommand, DeleteGroupCommand, GroupMemberCommand,
  NodeAclEntry, group, subject_eq, AuditEvent,
}
use asteria_drive.Memory.State.{Repository, Outcome, accept, reject, member_key}
use asteria_drive.Memory.Audit.{CallContext, audit_event, audited, keep}
use asteria_drive.Memory.Member.{managing_actor, group_member_key}

abbrev pub new_group : CreateGroupCommand → TenantGroup
new_group c = record {
  id = c.id;
  tenant_id = c.tenant_id;
  display_name = c.display_name;
  normalized_name = c.normalized_name;
  created_by = c.actor_principal_id;
  created_at = c.now;
  updated_at = c.now;
}

-- A group of the tenant has the name.
unfoldable pub group_name_taken : Repository → String → String → Bool
group_name_taken r tenant_id name =
    any_entry (λ _ g. g.tenant_id == tenant_id && g.normalized_name == name) r.groups

unfoldable pub create_group : CallContext → CreateGroupCommand → Repository → Outcome TenantGroup
create_group ctx c r =
    if not (managing_actor r c.tenant_id c.actor_principal_id c.actor_role)
    then reject ErrorCode.forbidden r
    else if group_name_taken r c.tenant_id c.normalized_name
    then reject ErrorCode.name_conflict r
    else audited ctx
        (audit_event c.tenant_id c.actor_principal_id "tenant.group.created" "group" c.id c.now
          (("name", c.display_name) ∷ []))
        (λ s. record s { groups = delete s.groups c.id }) (new_group c)
        (record r { groups = put r.groups c.id (new_group c) })

unfoldable pub list_groups : String → Repository → List TenantGroup
list_groups tenant_id r =
    sort_by (λ a b. str_ltb a.normalized_name b.normalized_name)
      (filter (λ g. g.tenant_id == tenant_id) (values r.groups))

-- Another group of the tenant has the name.
unfoldable pub other_group_has_name : Repository → String → String → String → Bool
other_group_has_name r group_id tenant_id name =
    any_entry
      (λ id g. not (id == group_id) && g.tenant_id == tenant_id && g.normalized_name == name)
      r.groups

unfoldable pub update_group : CallContext → UpdateGroupCommand → Repository → Outcome TenantGroup
update_group ctx c r =
    if not (managing_actor r c.tenant_id c.actor_principal_id c.actor_role)
    then reject ErrorCode.forbidden r
    else elim (get r.groups c.group_id) [
      | none ↦ reject ErrorCode.not_found r
      | some g ↦
          if not (g.tenant_id == c.tenant_id)
          then reject ErrorCode.not_found r
          else if other_group_has_name r g.id c.tenant_id c.normalized_name
          then reject ErrorCode.name_conflict r
          else let g' = record g {
            display_name = c.display_name;
            normalized_name = c.normalized_name;
            updated_at = c.now;
          } in
            audited ctx
              (audit_event c.tenant_id c.actor_principal_id "tenant.group.updated" "group" g.id
                c.now (("name", c.display_name) ∷ []))
              keep g' (record r { groups = put r.groups g.id g' })
    ]

-- A membership of the group: its key has the prefix and something behind it.
unfoldable pub is_member_key_of : String → String → String → Bool
is_member_key_of tenant_id group_id key =
    ltb (len tenant_id + len group_id + 2) (len key)
    && starts_with key (append tenant_id (append "/" (append group_id "/")))

unfoldable pub is_entry_for_group : String → String → NodeAclEntry → Bool
is_entry_for_group tenant_id group_id a =
    a.tenant_id == tenant_id && a.subject_type == group && a.subject_id == group_id

unfoldable pub delete_group : CallContext → DeleteGroupCommand → Repository → Outcome (Unit {0})
delete_group ctx c r =
    if not (managing_actor r c.tenant_id c.actor_principal_id c.actor_role)
    then reject ErrorCode.forbidden r
    else elim (get r.groups c.group_id) [
      | none ↦ reject ErrorCode.not_found r
      | some g ↦
          if not (g.tenant_id == c.tenant_id)
          then reject ErrorCode.not_found r
          else audited ctx
              (audit_event c.tenant_id c.actor_principal_id "tenant.group.deleted" "group"
                c.group_id c.now [])
              keep tt
              (record r {
                groups = delete r.groups g.id;
                group_members =
                    delete_where (λ k _. is_member_key_of c.tenant_id g.id k) r.group_members;
                acls = delete_where (λ _ a. is_entry_for_group c.tenant_id g.id a) r.acls;
              })
    ]

abbrev membership_event : String → GroupMemberCommand → AuditEvent
membership_event action c =
    audit_event c.tenant_id c.actor_principal_id action "group" c.group_id c.now
      (("principal_id", c.principal_id) ∷ [])

-- `groupMember`, with `add` for `AddGroupMember` and without it for `RemoveGroupMember`.
unfoldable pub group_member :
    CallContext → GroupMemberCommand → Bool → Repository → Outcome (Unit {0})
group_member ctx c add r =
    let key = group_member_key c.tenant_id c.group_id c.principal_id in
    if not (managing_actor r c.tenant_id c.actor_principal_id c.actor_role)
    then reject ErrorCode.forbidden r
    else elim (get r.groups c.group_id) [
      | none ↦ reject ErrorCode.not_found r
      | some g ↦
          if not (g.tenant_id == c.tenant_id)
          then reject ErrorCode.not_found r
          else if add
          then (if not (has r.members (member_key c.tenant_id c.principal_id))
              then reject ErrorCode.not_found r
              else if has r.group_members key
              then accept tt r
              else audited ctx (membership_event "tenant.group.member_added" c) keep tt
                  (record r { group_members = put r.group_members key tt }))
          else if has r.group_members key
          then audited ctx (membership_event "tenant.group.member_removed" c) keep tt
              (record r { group_members = delete r.group_members key })
          else accept tt r
    ]

abbrev pub add_group_member : CallContext → GroupMemberCommand → Repository → Outcome (Unit {0})
add_group_member ctx c r = group_member ctx c true r

abbrev pub remove_group_member : CallContext → GroupMemberCommand → Repository → Outcome (Unit {0})
remove_group_member ctx c r = group_member ctx c false r

-- The loop of `ListGroupMembers`.
unfoldable pub members_of :
    String → String → Dict String (Unit {0}) → Dict String PrincipalRecord → List PrincipalRecord
members_of tenant_id prefix [] members = []
members_of tenant_id prefix ((key, _) ∷ keys) members =
    let rest = members_of tenant_id prefix keys members in
    if ltb (len prefix) (len key) && starts_with key prefix
    then elim (get members (member_key tenant_id (drop_bytes key (len prefix)))) [
      | none ↦ rest
      | some m ↦ m ∷ rest
    ]
    else rest

unfoldable pub list_group_members : String → String → Repository → Result (List PrincipalRecord)
list_group_members tenant_id group_id r = elim (get r.groups group_id) [
  | none ↦ fail ErrorCode.not_found
  | some g ↦
      if not (g.tenant_id == tenant_id)
      then fail ErrorCode.not_found
      else ok (
          sort_by (λ a b. str_ltb a.identity.principal_id b.identity.principal_id)
            (members_of tenant_id (append tenant_id (append "/" (append group_id "/")))
              r.group_members r.members))
]
