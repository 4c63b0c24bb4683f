-- ===== src/Service/Governance.antt =====
-- internal/drive/governance_service.go: groups, access lists and the audit log, for owners and admins.
use asteria_drive.Prelude.{
  ℕ, ◌+◌, ◌*◌, String, Bool, true, false, none, some, List, ◌&&◌, ◌||◌, not, ltb, ◌==◌, nat_eq,
  length, if◌then◌else◌,
}
use asteria_drive.Prelude.Int.{ℤ, pos, ltb_ℤ, int_eq}
use asteria_drive.Result.{ok, ErrorCode}
use asteria_drive.Types.Access.{Identity, PrincipalRecord}
use asteria_drive.Types.Group.{
  TenantGroup, GroupMemberCommand, NodeCapability, valid_node_capability, manage_acl,
  AclSubjectType, valid_acl_subject_type, AclRole, valid_acl_role, NodeAclEntry, AuditEvent,
}
use asteria_drive.Platform.{Platform}
use asteria_drive.Validation.Names.{normalize_name}
use asteria_drive.Memory.Group
use asteria_drive.Memory.Acl
use asteria_drive.Memory.Audit
use asteria_drive.Service.{
  Call, Action, pure, lift, reading, on_repository, drawn, ◌>>=◌, ◌>>◌, refuse_if, require_id,
  second, MemberActor, may_manage, validate_member_actor,
}
use asteria_drive.Service.Nodes.{last_of}

pub record AuditPage : Type 0 where
  pub items : List AuditEvent
  pub next_sequence : ℤ

-- The sequence to go on from, when the page is full.
abbrev next_of : List AuditEvent → ℤ → ℤ
next_of items limit =
    if pos (length items) == limit
    then elim (last_of items) [ none ↦ pos 0 | some e ↦ e.sequence ]
    else pos 0

module _ {S : Type 0} where
  unfoldable pub validate_governance_manager : MemberActor → Action S (Unit {0})
  validate_governance_manager actor = do
    lift (validate_member_actor actor)
    refuse_if (not (may_manage actor.role)) ErrorCode.forbidden

  unfoldable pub create_group : Platform → Call → MemberActor → String → Action S TenantGroup
  create_group platform call actor name = do
    validate_governance_manager actor
    names ← lift (normalize_name platform name)
    id ← drawn (call.new_id 0)
    on_repository (
        Group.create_group call.context (record {
          id = id;
          tenant_id = actor.identity.tenant_id;
          actor_principal_id = actor.identity.principal_id;
          actor_role = actor.role;
          display_name = names.0;
          normalized_name = names.1;
          now = call.now 0;
        }))

  unfoldable pub list_groups : MemberActor → Action S (List TenantGroup)
  list_groups actor = do
    validate_governance_manager actor
    reading (λ r. ok (Group.list_groups actor.identity.tenant_id r))

  unfoldable pub update_group :
      Platform → Call → MemberActor → String → String → Action S TenantGroup
  update_group platform call actor group_id name = do
    validate_governance_manager actor
    require_id group_id
    names ← lift (normalize_name platform name)
    on_repository (
        Group.update_group call.context (record {
          tenant_id = actor.identity.tenant_id;
          group_id = group_id;
          actor_principal_id = actor.identity.principal_id;
          actor_role = actor.role;
          display_name = names.0;
          normalized_name = names.1;
          now = call.now 0;
        }))

  unfoldable pub delete_group : Call → MemberActor → String → Action S (Unit {0})
  delete_group call actor group_id = do
    validate_governance_manager actor
    require_id group_id
    on_repository (
        Group.delete_group call.context (record {
          tenant_id = actor.identity.tenant_id;
          group_id = group_id;
          actor_principal_id = actor.identity.principal_id;
          actor_role = actor.role;
          now = call.now 0;
        }))

  unfoldable pub change_group_member :
      Call → MemberActor → String → String → Bool → Action S (Unit {0})
  change_group_member call actor group_id principal_id add = do
    validate_governance_manager actor
    require_id group_id
    require_id principal_id
    let command : GroupMemberCommand = record {
      tenant_id = actor.identity.tenant_id;
      group_id = group_id;
      principal_id = principal_id;
      actor_principal_id = actor.identity.principal_id;
      actor_role = actor.role;
      now = call.now 0;
    }
    on_repository (
        if add
        then Group.add_group_member call.context command
        else Group.remove_group_member call.context command)

  abbrev pub add_group_member : Call → MemberActor → String → String → Action S (Unit {0})
  add_group_member call actor group_id principal_id =
      change_group_member call actor group_id principal_id true

  abbrev pub remove_group_member : Call → MemberActor → String → String → Action S (Unit {0})
  remove_group_member call actor group_id principal_id =
      change_group_member call actor group_id principal_id false

  unfoldable pub list_group_members : MemberActor → String → Action S (List PrincipalRecord)
  list_group_members actor group_id = do
    validate_governance_manager actor
    require_id group_id
    reading (Group.list_group_members actor.identity.tenant_id group_id)

  unfoldable pub authorize_node : Identity → String → NodeCapability → Action S (Unit {0})
  authorize_node identity node_id wanted = do
    require_id identity.tenant_id
    require_id identity.principal_id
    require_id node_id
    refuse_if (not (valid_node_capability wanted)) ErrorCode.invalid_request
    reading (Acl.authorize_node identity node_id wanted)

  unfoldable pub list_node_acl : MemberActor → String → Action S (List NodeAclEntry)
  list_node_acl actor node_id = do
    lift (validate_member_actor actor)
    authorize_node actor.identity node_id manage_acl
    reading (λ r. ok (Acl.list_node_acl actor.identity.tenant_id node_id r))

  unfoldable pub set_node_acl :
      Call → MemberActor → String → AclSubjectType → String → AclRole → Action S NodeAclEntry
  set_node_acl call actor node_id subject_type subject_id role = do
    lift (validate_member_actor actor)
    require_id node_id
    require_id subject_id
    refuse_if (not (valid_acl_subject_type subject_type) || not (valid_acl_role role))
        ErrorCode.invalid_request
    id ← drawn (call.new_id 0)
    on_repository (
        Acl.set_node_acl call.context (record {
          id = id;
          tenant_id = actor.identity.tenant_id;
          node_id = node_id;
          subject_type = subject_type;
          subject_id = subject_id;
          role = role;
          actor_principal_id = actor.identity.principal_id;
          actor_role = actor.role;
          now = call.now 0;
        }))

  unfoldable pub delete_node_acl : Call → MemberActor → String → String → Action S (Unit {0})
  delete_node_acl call actor node_id entry_id = do
    lift (validate_member_actor actor)
    require_id node_id
    require_id entry_id
    on_repository (
        Acl.delete_node_acl call.context (record {
          tenant_id = actor.identity.tenant_id;
          node_id = node_id;
          entry_id = entry_id;
          actor_principal_id = actor.identity.principal_id;
          actor_role = actor.role;
          now = call.now 0;
        }))

  -- A time of 0 is Go's zero time, which bounds nothing.
  unfoldable pub list_audit : MemberActor → ℤ → ℕ → ℕ → ℤ → Action S AuditPage
  list_audit actor after_sequence from until limit = do
    validate_governance_manager actor
    let bounded : Bool = not (from == 0) && not (until == 0)
    refuse_if
        (ltb_ℤ after_sequence (pos 0)
          || ltb_ℤ limit (pos 0)
          || ltb_ℤ (pos 1000) limit
          || (bounded && not (ltb from until)))
        ErrorCode.invalid_request
    refuse_if (bounded && ltb (from + 31 * 24 * 3600 * second) until) ErrorCode.invalid_request
    let limit : ℤ = if limit == pos 0 then pos 100 else limit
    items ← reading (λ r. ok (
        Audit.list_audit r (record {
          tenant_id = actor.identity.tenant_id;
          after_sequence = after_sequence;
          from = from;
          until = until;
          limit = limit;
        })))
    pure (record { items = items; next_sequence = next_of items limit })
