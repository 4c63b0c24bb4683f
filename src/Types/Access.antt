-- ===== src/Types/Access.antt =====
-- internal/drive/types.go: identities, roles, members and invitations. The constructor `unset` of a
-- type of constants stands for the empty string and for every string that is none of the constants.
use asteria_drive.Prelude.{
  ℕ, String, Bool, true, false, Option, List, [], ◌∷◌, ◌||◌, ◌≡◌, ◌↔◌, arith, Eq, ◌==◌, nat_eq,
}

pub record Identity : Type 0 where
  pub tenant_id : String
  pub principal_id : String

pub data AccessRole : Type 0 where
  owner admin editor viewer unset : AccessRole

abbrev pub role_tag : AccessRole → ℕ
role_tag owner = 0
role_tag admin = 1
role_tag editor = 2
role_tag viewer = 3
role_tag unset = 4

pub role_tag_iff : (a b : AccessRole) → ((role_tag a == role_tag b) ≡ true) ↔ (a ≡ b)
role_tag_iff a b = ground arith

instance abbrev pub role_eq : Eq AccessRole
role_eq = record { beq = λ a b. role_tag a == role_tag b; beq_iff = role_tag_iff }

unfoldable pub valid_access_role : AccessRole → Bool
valid_access_role unset = false
valid_access_role owner = true
valid_access_role admin = true
valid_access_role editor = true
valid_access_role viewer = true

abbrev pub role_text : AccessRole → String
role_text owner = "owner"
role_text admin = "admin"
role_text editor = "editor"
role_text viewer = "viewer"
role_text unset = ""

pub data Permission : Type 0 where
  tenant_read members_read members_manage groups_manage audit_read files_read files_write
        files_delete :
      Permission

-- The set as the list of its members.
unfoldable pub permissions_for_role : AccessRole → List Permission
permissions_for_role owner =
    tenant_read ∷ members_read ∷ members_manage ∷ groups_manage ∷ audit_read ∷ files_read
    ∷ files_write ∷ files_delete ∷ []
permissions_for_role admin =
    tenant_read ∷ members_read ∷ members_manage ∷ groups_manage ∷ audit_read ∷ files_read
    ∷ files_write ∷ files_delete ∷ []
permissions_for_role editor = files_read ∷ files_write ∷ []
permissions_for_role viewer = files_read ∷ []
permissions_for_role unset = []

pub data MemberStatus : Type 0 where
  active suspended no_status : MemberStatus

abbrev pub member_status_tag : MemberStatus → ℕ
member_status_tag active = 0
member_status_tag suspended = 1
member_status_tag no_status = 2

pub member_status_tag_iff :
    (a b : MemberStatus) → ((member_status_tag a == member_status_tag b) ≡ true) ↔ (a ≡ b)
member_status_tag_iff a b = ground arith

instance abbrev pub member_status_eq : Eq MemberStatus
member_status_eq = record {
  beq = λ a b. member_status_tag a == member_status_tag b;
  beq_iff = member_status_tag_iff;
}

unfoldable pub valid_member_status : MemberStatus → Bool
valid_member_status s = s == active || s == suspended

abbrev pub member_status_text : MemberStatus → String
member_status_text active = "active"
member_status_text suspended = "suspended"
member_status_text no_status = ""

pub record PrincipalRecord : Type 0 where
  pub identity : Identity
  pub issuer : String
  pub subject : String
  pub display_name : String
  pub tenant_display_name : String
  pub role : AccessRole
  pub status : MemberStatus

pub record OidcMemberSeed : Type 0 where
  pub principal_id : String
  pub tenant_id : String
  pub issuer : String
  pub subject : String
  pub display_name : String
  pub role : AccessRole
  pub now : ℕ

pub record UpdateMemberCommand : Type 0 where
  pub tenant_id : String
  pub principal_id : String
  pub actor_principal_id : String
  pub actor_role : AccessRole
  pub role : Option AccessRole
  pub status : Option MemberStatus
  pub now : ℕ

pub record DeleteMemberCommand : Type 0 where
  pub tenant_id : String
  pub principal_id : String
  pub actor_principal_id : String
  pub actor_role : AccessRole
  pub now : ℕ

pub record Tenant : Type 0 where
  pub id : String
  pub display_name : String
  pub root_node_id : String
  pub created_at : ℕ

-- `Tenant{}`
abbrev pub no_tenant : Tenant
no_tenant = record { id = ""; display_name = ""; root_node_id = ""; created_at = 0 }

pub record TenantSeed : Type 0 where
  pub tenant_id : String
  pub display_name : String
  pub root_node_id : String
  pub now : ℕ
