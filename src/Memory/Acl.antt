-- ===== src/Memory/Acl.antt =====
-- internal/memory/governance.go: the access lists of nodes, and the decision whether a member may use a node.
pub mod Grants
pub mod Levels
use asteria_drive.Prelude.{
  ℕ, zero, suc, String, Bool, true, false, Option, none, some, List, [], ◌∷◌, ◌&&◌, ◌||◌, leb, not,
  ◌==◌, string_eq, length, filter, if◌then◌else◌,
}
use asteria_drive.Dict.{Dict, get, put, delete, values, has, any_entry}
use asteria_drive.Result.{Result, ok, fail, ErrorCode}
use asteria_drive.Types.Access.{
  Identity, AccessRole, owner, admin, editor, viewer, role_eq, active, member_status_eq,
  PrincipalRecord,
}
use asteria_drive.Types.Node.{Node}
use asteria_drive.Types.Group
use asteria_drive.Types.Group.{
  AclSubjectType, principal, group, subject_eq, subject_text, valid_acl_subject_type, AclRole,
  reader, contributor, manager, no_role, acl_role_text, valid_acl_role, NodeCapability, read, write,
  manage_acl, no_capability, valid_node_capability, NodeAclEntry, SetNodeAclCommand,
  DeleteNodeAclCommand, AuditEvent,
}
use asteria_drive.Memory.State.{Repository, Outcome, accept, reject, active_node, member_key}
use asteria_drive.Memory.Audit.{CallContext, audit_event, audited, keep}
use asteria_drive.Memory.Member.{group_member_key}

unfoldable pub list_node_acl : String → String → Repository → List NodeAclEntry
list_node_acl tenant_id node_id r =
    filter (λ a. a.tenant_id == tenant_id && a.node_id == node_id) (values r.acls)

-- The map `needed` at a capability, and the map of levels at a role.
abbrev pub needed_level : NodeCapability → ℕ
needed_level read = 1
needed_level write = 2
needed_level Group.delete = 3
needed_level manage_acl = 3
needed_level no_capability = 0

abbrev pub role_level : AclRole → ℕ
role_level reader = 1
role_level contributor = 2
role_level manager = 3
role_level no_role = 0

-- The entry names the principal, or a group that the principal is in.
unfoldable pub concerns : Repository → Identity → NodeAclEntry → Bool
concerns r i a =
    (a.subject_type == principal && a.subject_id == i.principal_id)
    || (a.subject_type == group
        && has r.group_members (group_member_key i.tenant_id a.subject_id i.principal_id))

-- The entry stands at the node and gives the principal at least the level.
unfoldable pub grants : Repository → Identity → String → ℕ → NodeAclEntry → Bool
grants r i node_id needed a =
    a.tenant_id == i.tenant_id
    && a.node_id == node_id
    && concerns r i a
    && leb needed (role_level a.role)

-- The loop of `authorizeNodeLocked` from the node up to the root, for at most `fuel` steps.
unfoldable pub granted_from : ℕ → Repository → Identity → String → ℕ → Bool
granted_from zero r i current needed = false
granted_from (suc fuel) r i current needed =
    if current == ""
    then false
    else if any_entry (λ _ a. grants r i current needed a) r.acls
    then true
    else elim (get r.nodes current) [
      | none ↦ false
      | some n ↦ granted_from fuel r i n.parent_id needed
    ]

-- What the member's role allows on every node.
unfoldable pub role_allows : AccessRole → ℕ → Bool
role_allows role needed =
    role == owner
    || role == admin
    || (role == editor && leb needed 2)
    || (role == viewer && leb needed 1)

-- `authorizeNodeLocked`
unfoldable pub authorize_node : Identity → String → NodeCapability → Repository → Result (Unit {0})
unfolding role_allows granted_from
authorize_node i node_id capability r =
    if not (valid_node_capability capability)
    then fail ErrorCode.invalid_request
    else elim (get r.nodes node_id) [
      | none ↦ fail ErrorCode.not_found
      | some n ↦
          if not (n.tenant_id == i.tenant_id)
          then fail ErrorCode.not_found
          else elim (get r.members (member_key i.tenant_id i.principal_id)) [
            | none ↦ fail ErrorCode.forbidden
            | some m ↦
                if not (m.status == active)
                then fail ErrorCode.forbidden
                else if role_allows m.role (needed_level capability)
                then ok tt
                else if granted_from (suc (length r.nodes)) r i node_id (needed_level capability)
                then ok tt
                else fail ErrorCode.forbidden
          ]
    ]

abbrev pub succeeds : {A : Type 0} → Result A → Bool
succeeds (ok _) = true
succeeds (Result.err _) = false

-- `canManageACLLocked`
unfoldable pub can_manage_acl : String → String → AccessRole → String → Repository → Bool
can_manage_acl tenant_id principal_id role node_id r =
    elim (get r.members (member_key tenant_id principal_id)) [
      | none ↦ false
      | some m ↦
          if not (m.status == active) || not (m.role == role)
          then false
          else if role == owner || role == admin
          then true
          else succeeds (
              authorize_node (record { tenant_id = tenant_id; principal_id = principal_id }) node_id
                manage_acl r)
    ]

-- The subject of the command is a member or a group of the tenant.
unfoldable pub has_subject : Repository → SetNodeAclCommand → Bool
has_subject r c =
    if c.subject_type == principal
    then has r.members (member_key c.tenant_id c.subject_id)
    else elim (get r.groups c.subject_id) [ none ↦ false | some g ↦ g.tenant_id == c.tenant_id ]

abbrev pub is_same_entry : SetNodeAclCommand → NodeAclEntry → Bool
is_same_entry c a =
    a.tenant_id == c.tenant_id
    && a.node_id == c.node_id
    && a.subject_type == c.subject_type
    && a.subject_id == c.subject_id

-- The first entry that the loop of `SetNodeACL` meets for the command's node and subject.
unfoldable pub find_entry :
    SetNodeAclCommand → Dict String NodeAclEntry → Option (String × NodeAclEntry)
find_entry c [] = none
find_entry c ((id, a) ∷ acls) = if is_same_entry c a then some (id, a) else find_entry c acls

abbrev pub new_entry : SetNodeAclCommand → NodeAclEntry
new_entry c = record {
  id = c.id;
  tenant_id = c.tenant_id;
  node_id = c.node_id;
  subject_type = c.subject_type;
  subject_id = c.subject_id;
  role = c.role;
  created_by = c.actor_principal_id;
  created_at = c.now;
  updated_at = c.now;
}

abbrev pub acl_event : SetNodeAclCommand → String → AuditEvent
acl_event c entry_id =
    audit_event c.tenant_id c.actor_principal_id "node.acl.set" "node_acl" entry_id c.now (
      ("node_id", c.node_id)
      ∷ ("role", acl_role_text c.role)
      ∷ ("subject_type", subject_text c.subject_type)
      ∷ ("subject_id", c.subject_id)
      ∷ [])

unfoldable pub set_node_acl : CallContext → SetNodeAclCommand → Repository → Outcome NodeAclEntry
set_node_acl ctx c r =
    if not (can_manage_acl c.tenant_id c.actor_principal_id c.actor_role c.node_id r)
    then reject ErrorCode.forbidden r
    else if not (valid_acl_subject_type c.subject_type) || not (valid_acl_role c.role)
    then reject ErrorCode.invalid_request r
    else elim (active_node r c.tenant_id c.node_id) [
      | none ↦ reject ErrorCode.not_found r
      | some _ ↦
          if not (has_subject r c)
          then reject ErrorCode.not_found r
          else elim (find_entry c r.acls) [
            | some (id, a) ↦
                let a' = record a { role = c.role; updated_at = c.now } in
                audited ctx (acl_event c a.id) keep a' (record r { acls = put r.acls id a' })
            | none ↦
                audited ctx (acl_event c c.id) (λ s. record s { acls = delete s.acls c.id })
                  (new_entry c) (record r { acls = put r.acls c.id (new_entry c) })
          ]
    ]

unfoldable pub delete_node_acl :
    CallContext → DeleteNodeAclCommand → Repository → Outcome (Unit {0})
delete_node_acl ctx c r =
    if not (can_manage_acl c.tenant_id c.actor_principal_id c.actor_role c.node_id r)
    then reject ErrorCode.forbidden r
    else elim (get r.acls c.entry_id) [
      | none ↦ reject ErrorCode.not_found r
      | some a ↦
          if not (a.tenant_id == c.tenant_id) || not (a.node_id == c.node_id)
          then reject ErrorCode.not_found r
          else audited ctx
              (audit_event c.tenant_id c.actor_principal_id "node.acl.deleted" "node_acl" c.entry_id
                c.now (("node_id", c.node_id) ∷ []))
              keep tt (record r { acls = delete r.acls c.entry_id })
    ]
