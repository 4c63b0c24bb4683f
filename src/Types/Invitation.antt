-- ===== src/Types/Invitation.antt =====
-- internal/drive/types.go: tenant invitations. `no_status` stands for every other string.
use asteria_drive.Prelude.{
  ℕ, String, Bool, true, false, Option, none, ◌≡◌, ◌↔◌, arith, Eq, ◌==◌, nat_eq,
}
use asteria_drive.Types.Access.{AccessRole, unset}

pub data InvitationStatus : Type 0 where
  pending accepted revoked expired no_status : InvitationStatus

abbrev pub invitation_status_tag : InvitationStatus → ℕ
invitation_status_tag pending = 0
invitation_status_tag accepted = 1
invitation_status_tag revoked = 2
invitation_status_tag expired = 3
invitation_status_tag no_status = 4

pub invitation_status_tag_iff :
    (a b : InvitationStatus)
    → ((invitation_status_tag a == invitation_status_tag b) ≡ true) ↔ (a ≡ b)
invitation_status_tag_iff a b = ground arith

instance abbrev pub invitation_status_eq : Eq InvitationStatus
invitation_status_eq = record {
  beq = λ a b. invitation_status_tag a == invitation_status_tag b;
  beq_iff = invitation_status_tag_iff;
}

unfoldable pub valid_invitation_status : InvitationStatus → Bool
valid_invitation_status no_status = false
valid_invitation_status pending = true
valid_invitation_status accepted = true
valid_invitation_status revoked = true
valid_invitation_status expired = true

pub record TenantInvitation : Type 0 where
  pub id : String
  pub tenant_id : String
  pub issuer : String
  pub subject : String
  pub display_name : String
  pub role : AccessRole
  pub status : InvitationStatus
  pub accepted_principal_id : String
  pub created_by : String
  pub expires_at : ℕ
  pub accepted_at : Option ℕ
  pub revoked_at : Option ℕ
  pub created_at : ℕ
  pub updated_at : ℕ

-- `TenantInvitation{}`
abbrev pub no_invitation : TenantInvitation
no_invitation = record {
  id = "";
  tenant_id = "";
  issuer = "";
  subject = "";
  display_name = "";
  role = unset;
  status = no_status;
  accepted_principal_id = "";
  created_by = "";
  expires_at = 0;
  accepted_at = none;
  revoked_at = none;
  created_at = 0;
  updated_at = 0;
}

pub record CreateInvitationCommand : Type 0 where
  pub id : String
  pub tenant_id : String
  pub actor_principal_id : String
  pub actor_role : AccessRole
  pub issuer : String
  pub subject : String
  pub display_name : String
  pub role : AccessRole
  pub token_hash : String
  pub expires_at : ℕ
  pub now : ℕ

pub record AcceptInvitationCommand : Type 0 where
  pub token_hash : String
  pub candidate_principal_id : String
  pub issuer : String
  pub subject : String
  pub now : ℕ

pub record RevokeInvitationCommand : Type 0 where
  pub tenant_id : String
  pub invitation_id : String
  pub actor_principal_id : String
  pub actor_role : AccessRole
  pub now : ℕ
