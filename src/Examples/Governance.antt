-- ===== src/Examples/Governance.antt =====
-- The theorems on members, access entries and groups.
use asteria_drive.Prelude.{
  ◌∷◌, [], ◌≡◌, ◌≢◌, ◌↔◌, String, none, some, arith, refl, string_eq, str_beq, str_beq_iff,
}
use asteria_drive.Dict.{Dict, get, put, has, any_entry}
use asteria_drive.Result.{ok}
use asteria_drive.Dict.Unique.{IsUnique}
use asteria_drive.Types.Access.{
  owner, admin, editor, UpdateMemberCommand, DeleteMemberCommand, PrincipalRecord,
}
use asteria_drive.Memory.State.{Repository, member_key, active_node, visible}
use asteria_drive.Memory.Member.{managing_actor, group_member_key, update_member, delete_member}
use asteria_drive.Memory.Member.Roll.{IsRoll, HasOwner}
use asteria_drive.Memory.Member.Owners.{update_member-HasOwner, delete_member-HasOwner}
use asteria_drive.Memory.Member.Admins.{update_member_by_admin, delete_member_by_admin}
use asteria_drive.Text.{json_map_size}
use asteria_drive.Types.Group.{
  SetNodeAclCommand, DeleteGroupCommand, NodeAclEntry, TenantGroup, group, principal, manager,
  valid_acl_subject_type, valid_acl_role,
}
use asteria_drive.Memory.Group.{delete_group}
use asteria_drive.Memory.Group.Deletion.{delete_group_clean}
use asteria_drive.Memory.Audit.{append_audit, audited, metadata_is_bounded}
use asteria_drive.Memory.Acl.{set_node_acl, can_manage_acl, find_entry, has_subject, role_level}
use asteria_drive.Memory.Acl.Levels.{IsGranted}
use asteria_drive.Memory.Acl.Grants.{set_node_acl-IsGranted}
use asteria_drive.Examples.Fixtures.{
  acl_entry, carol, context, alice_id, bob_id, carol_id, tenant_id, repository, member,
}

abbrev roll_members : Dict String PrincipalRecord
roll_members = repository.members

keys :
    (member_key tenant_id alice_id ≢ member_key tenant_id bob_id)
    × (member_key tenant_id alice_id ≢ member_key tenant_id carol_id)
    × (member_key tenant_id bob_id ≢ member_key tenant_id carol_id)
unfolding member_key str_beq
keys = (
  ground (arith, str_beq_iff (member_key tenant_id alice_id) (member_key tenant_id bob_id)),
  ground (arith, str_beq_iff (member_key tenant_id alice_id) (member_key tenant_id carol_id)),
  ground (arith, str_beq_iff (member_key tenant_id bob_id) (member_key tenant_id carol_id)),
)

roll : IsRoll repository.members
unfolding get
roll = record {
  unique =
      let (ab, ac, bc) = keys in
      IsUnique.cons _ _ _
        (ground (
          arith,
          ab,
          ac,
          str_beq_iff (member_key tenant_id bob_id) (member_key tenant_id alice_id),
          str_beq_iff (member_key tenant_id carol_id) (member_key tenant_id alice_id),
        ))
        (IsUnique.cons _ _ _
          (ground
            (arith, bc, str_beq_iff (member_key tenant_id carol_id) (member_key tenant_id bob_id)))
          (IsUnique.cons _ _ _ refl IsUnique.nil));
  keyed = λ k m g. ground (
    arith,
    str_beq_iff (member_key tenant_id alice_id) k,
    str_beq_iff (member_key tenant_id bob_id) k,
    str_beq_iff (member_key tenant_id carol_id) k,
  );
}

owned : HasOwner repository.members tenant_id
unfolding get asteria_drive.Memory.Member.is_active_owner
owned = (
  member_key tenant_id alice_id,
  member alice_id owner,
  ground (arith, str_beq_iff (member_key tenant_id alice_id) (member_key tenant_id alice_id)),
  refl,
  refl,
)

-- The only owner asks to be an editor.
abbrev step_down : UpdateMemberCommand
step_down = record {
  tenant_id = tenant_id;
  principal_id = alice_id;
  actor_principal_id = alice_id;
  actor_role = owner;
  role = some editor;
  status = none;
  now = 7;
}

abbrev leave : DeleteMemberCommand
leave = record {
  tenant_id = tenant_id;
  principal_id = alice_id;
  actor_principal_id = alice_id;
  actor_role = owner;
  now = 7;
}

update_member-HasOwner_example :
    IsRoll (update_member context step_down repository).1.members
    × HasOwner (update_member context step_down repository).1.members tenant_id
update_member-HasOwner_example = update_member-HasOwner context repository roll step_down owned

delete_member-HasOwner_example :
    IsRoll (delete_member context leave repository).1.members
    × HasOwner (delete_member context leave repository).1.members tenant_id
delete_member-HasOwner_example = delete_member-HasOwner context repository roll leave owned

-- An administrator asks to demote and to delete the owner.
abbrev demote : UpdateMemberCommand
demote = record step_down { actor_principal_id = bob_id; actor_role = admin }

abbrev remove : DeleteMemberCommand
remove = record leave { actor_principal_id = bob_id; actor_role = admin }

update_member_by_admin_example :
    (get (update_member context demote repository).1.members (member_key tenant_id alice_id)
      ≡ some (member alice_id owner))
    ↔ (get repository.members (member_key tenant_id alice_id) ≡ some (member alice_id owner))
update_member_by_admin_example =
    update_member_by_admin context repository demote (member_key tenant_id alice_id)
      (member alice_id owner) refl refl

delete_member_by_admin_example :
    (get (delete_member context remove repository).1.members (member_key tenant_id alice_id)
      ≡ some (member alice_id owner))
    ↔ (get repository.members (member_key tenant_id alice_id) ≡ some (member alice_id owner))
delete_member_by_admin_example =
    delete_member_by_admin context repository remove (member_key tenant_id alice_id)
      (member alice_id owner) refl refl

-- The owner makes the editor a manager of the directory.
abbrev promote : SetNodeAclCommand
promote = record {
  id = "entry";
  tenant_id = tenant_id;
  node_id = "docs";
  subject_type = principal;
  subject_id = carol_id;
  role = manager;
  actor_principal_id = alice_id;
  actor_role = owner;
  now = 7;
}

promoted :
    (set_node_acl context promote repository).0
    ≡ ok (record acl_entry { role = manager; updated_at = 7 })
unfolding set_node_acl can_manage_acl find_entry has_subject active_node visible get has put
    any_entry audited append_audit metadata_is_bounded json_map_size valid_acl_subject_type
    valid_acl_role member_key str_beq
promoted = refl

docs_named : promote.node_id ≢ ""
unfolding str_beq
docs_named = ground (arith, str_beq_iff promote.node_id "")

set_node_acl-IsGranted_example :
    IsGranted (set_node_acl context promote repository).1 carol (role_level manager) "docs"
set_node_acl-IsGranted_example =
    set_node_acl-IsGranted context promote repository
      (record acl_entry { role = manager; updated_at = 7 }) promoted refl docs_named

abbrev crew : TenantGroup
crew = record {
  id = "crew";
  tenant_id = tenant_id;
  display_name = "Crew";
  normalized_name = "crew";
  created_by = alice_id;
  created_at = 0;
  updated_at = 0;
}

-- The repository with a group, its member and its access entry.
abbrev crew_entry : NodeAclEntry
crew_entry = record acl_entry { subject_type = group; subject_id = "crew" }

abbrev grouped : Repository
grouped = record repository {
  groups = ("crew", crew) ∷ [];
  group_members = (group_member_key tenant_id "crew" carol_id, tt) ∷ [];
  acls = ("entry", crew_entry) ∷ [];
}

abbrev dissolve : DeleteGroupCommand
dissolve = record {
  tenant_id = tenant_id;
  group_id = "crew";
  actor_principal_id = alice_id;
  actor_role = owner;
  now = 7;
}

dissolved : (delete_group context dissolve grouped).0 ≡ ok tt
unfolding delete_group managing_actor get any_entry audited append_audit metadata_is_bounded
    json_map_size member_key str_beq
dissolved = refl

found_crew : get grouped.groups "crew" ≡ some crew
unfolding get str_beq
found_crew = refl

carol_given : carol_id ≢ ""
unfolding str_beq
carol_given = ground (arith, str_beq_iff carol_id "")

delete_group_clean_example :
    (get (delete_group context dissolve grouped).1.groups "crew" ≡ none)
    × (get
          (delete_group context dissolve grouped).1.group_members
          (group_member_key tenant_id "crew" carol_id)
        ≡ none)
    × (get (delete_group context dissolve grouped).1.acls "entry" ≢ some crew_entry)
delete_group_clean_example =
    delete_group_clean context dissolve grouped crew carol_id "entry" crew_entry dissolved
      found_crew refl carol_given refl refl refl
