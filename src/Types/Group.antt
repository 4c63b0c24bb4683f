-- ===== src/Types/Group.antt =====
-- internal/drive/types.go: groups, node access lists and audit events. The last constructor of a type
-- of constants stands for every other string.
use asteria_drive.Prelude.{ℕ, String, Bool, true, false, ◌||◌, ◌≡◌, ◌↔◌, arith, Eq, ◌==◌, nat_eq}
use asteria_drive.Prelude.Int.{ℤ}
use asteria_drive.Dict.{Dict}
use asteria_drive.Types.Access.{AccessRole}

pub record TenantGroup : Type 0 where
  pub id : String
  pub tenant_id : String
  pub display_name : String
  pub normalized_name : String
  pub created_by : String
  pub created_at : ℕ
  pub updated_at : ℕ

pub record CreateGroupCommand : Type 0 where
  pub id : String
  pub tenant_id : String
  pub actor_principal_id : String
  pub actor_role : AccessRole
  pub display_name : String
  pub normalized_name : String
  pub now : ℕ

pub record UpdateGroupCommand : Type 0 where
  pub tenant_id : String
  pub group_id : String
  pub actor_principal_id : String
  pub actor_role : AccessRole
  pub display_name : String
  pub normalized_name : String
  pub now : ℕ

pub record DeleteGroupCommand : Type 0 where
  pub tenant_id : String
  pub group_id : String
  pub actor_principal_id : String
  pub actor_role : AccessRole
  pub now : ℕ

pub record GroupMemberCommand : Type 0 where
  pub tenant_id : String
  pub group_id : String
  pub principal_id : String
  pub actor_principal_id : String
  pub actor_role : AccessRole
  pub now : ℕ

pub data AclSubjectType : Type 0 where
  principal group no_subject : AclSubjectType

abbrev pub subject_tag : AclSubjectType → ℕ
subject_tag principal = 0
subject_tag group = 1
subject_tag no_subject = 2

pub subject_tag_iff : (a b : AclSubjectType) → ((subject_tag a == subject_tag b) ≡ true) ↔ (a ≡ b)
subject_tag_iff a b = ground arith

instance abbrev pub subject_eq : Eq AclSubjectType
subject_eq = record { beq = λ a b. subject_tag a == subject_tag b; beq_iff = subject_tag_iff }

unfoldable pub valid_acl_subject_type : AclSubjectType → Bool
valid_acl_subject_type t = t == principal || t == group

abbrev pub subject_text : AclSubjectType → String
subject_text principal = "principal"
subject_text group = "group"
subject_text no_subject = ""

pub data AclRole : Type 0 where
  reader contributor manager no_role : AclRole

abbrev pub acl_role_tag : AclRole → ℕ
acl_role_tag reader = 0
acl_role_tag contributor = 1
acl_role_tag manager = 2
acl_role_tag no_role = 3

pub acl_role_tag_iff : (a b : AclRole) → ((acl_role_tag a == acl_role_tag b) ≡ true) ↔ (a ≡ b)
acl_role_tag_iff a b = ground arith

instance abbrev pub acl_role_eq : Eq AclRole
acl_role_eq = record { beq = λ a b. acl_role_tag a == acl_role_tag b; beq_iff = acl_role_tag_iff }

unfoldable pub valid_acl_role : AclRole → Bool
valid_acl_role r = r == reader || r == contributor || r == manager

abbrev pub acl_role_text : AclRole → String
acl_role_text reader = "reader"
acl_role_text contributor = "contributor"
acl_role_text manager = "manager"
acl_role_text no_role = ""

pub data NodeCapability : Type 0 where
  read write delete manage_acl no_capability : NodeCapability

unfoldable pub valid_node_capability : NodeCapability → Bool
valid_node_capability no_capability = false
valid_node_capability read = true
valid_node_capability write = true
valid_node_capability delete = true
valid_node_capability manage_acl = true

pub record NodeAclEntry : Type 0 where
  pub id : String
  pub tenant_id : String
  pub node_id : String
  pub subject_type : AclSubjectType
  pub subject_id : String
  pub role : AclRole
  pub created_by : String
  pub created_at : ℕ
  pub updated_at : ℕ

pub record SetNodeAclCommand : Type 0 where
  pub id : String
  pub tenant_id : String
  pub node_id : String
  pub subject_type : AclSubjectType
  pub subject_id : String
  pub role : AclRole
  pub actor_principal_id : String
  pub actor_role : AccessRole
  pub now : ℕ

pub record DeleteNodeAclCommand : Type 0 where
  pub tenant_id : String
  pub node_id : String
  pub entry_id : String
  pub actor_principal_id : String
  pub actor_role : AccessRole
  pub now : ℕ

pub record AuditEvent : Type 0 where
  pub sequence : ℤ
  pub id : String
  pub tenant_id : String
  pub actor_principal_id : String
  pub action : String
  pub target_type : String
  pub target_id : String
  pub request_id : String
  pub metadata : Dict String String
  pub occurred_at : ℕ

pub record AuditFilter : Type 0 where
  pub tenant_id : String
  pub after_sequence : ℤ
  pub from : ℕ
  pub until : ℕ
  pub limit : ℤ
