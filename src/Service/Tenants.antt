-- ===== src/Service/Tenants.antt =====
-- internal/drive/service.go: the methods of the service on tenants, members and invitations.
use asteria_drive.Prelude.{
  ℕ, String, len, Bool, true, Option, none, some, List, [], ◌∷◌, ◌&&◌, ◌||◌, not, ltb, ◌==◌, nat_eq,
  string_eq, if◌then◌else◌,
}
use asteria_drive.Prelude.Int.{ℤ, pos, negsuc}
use asteria_drive.Text.{bytes, codes, hex_encode, is_blank}
use asteria_drive.Validation.{is_hex_digit}
use asteria_drive.Result.{fail, ErrorCode}
use asteria_drive.Types.Access.{
  Identity, AccessRole, owner, admin, role_eq, valid_access_role, MemberStatus, valid_member_status,
  PrincipalRecord, Tenant,
}
use asteria_drive.Types.Node.{CursorPosition}
use asteria_drive.Types.Invitation.{TenantInvitation, InvitationStatus, valid_invitation_status}
use asteria_drive.Types.Storage.{Page, StorageProvider}
use asteria_drive.Platform.{Platform}
use asteria_drive.Memory.Tenant
use asteria_drive.Memory.Member
use asteria_drive.Memory.Member.{given}
use asteria_drive.Memory.Invitation
use asteria_drive.Memory.Invitation.{Acceptance}
use asteria_drive.Service.{
  Call, Action, World, pure, lift, reading, on_repository, drawn, ◌>>=◌, ◌>>◌, refuse_if,
  require_id, Settings, MemberActor, may_manage, validate_member_actor, page_limit,
}
use asteria_drive.Service.Cursor.{decode}
use asteria_drive.Service.Nodes.{page_of, is_none}

pub record InvitationOutput : Type 0 where
  pub invitation : TenantInvitation
  pub token : String

-- `validInvitationIdentity`
unfoldable pub valid_invitation_identity : String → String → Bool
valid_invitation_identity issuer subject =
    not (issuer == "")
    && not (subject == "")
    && not (is_blank issuer)
    && not (is_blank subject)
    && not (ltb 512 (len issuer))
    && not (ltb 512 (len subject))

all_hex : List ℕ → Bool
all_hex [] = true
all_hex (c ∷ cs) = is_hex_digit c && all_hex cs

-- `hex.DecodeString(token)` gives 32 bytes.
unfoldable pub is_token : String → Bool
unfolding all_hex
is_token token = len token == 64 && all_hex (codes token)

-- The repository lists all for a limit that is not positive.
abbrev count_of : ℤ → ℕ
count_of (pos n) = n
count_of (negsuc n) = 0

abbrev member_position : PrincipalRecord → CursorPosition
member_position p = record { name = p.identity.principal_id; id = p.identity.principal_id }

abbrev token_hash : Platform → String → String
token_hash platform token = hex_encode (platform.sha256 (bytes token))

module _ {S : Type 0} where
  unfoldable pub ensure_tenant : Call → String → String → Action S Tenant
  ensure_tenant call tenant_id display_name = do
    require_id tenant_id
    root_id ← drawn (call.new_id 0)
    on_repository (
        Tenant.ensure_tenant (record {
          tenant_id = tenant_id;
          display_name = display_name;
          root_node_id = root_id;
          now = call.now 0;
        }))

  unfoldable pub tenant : String → Action S Tenant
  tenant tenant_id = do require_id tenant_id; reading (Tenant.tenant tenant_id)

  unfoldable pub update_member :
      Call
      → MemberActor
      → String
      → Option AccessRole
      → Option MemberStatus
      → Action S PrincipalRecord
  update_member call actor principal_id role new_status = do
    require_id actor.identity.tenant_id
    require_id actor.identity.principal_id
    require_id principal_id
    refuse_if (not (may_manage actor.role)) ErrorCode.forbidden
    refuse_if (is_none role && is_none new_status) ErrorCode.invalid_request
    refuse_if (given role (λ r. not (valid_access_role r))) ErrorCode.invalid_request
    refuse_if (given new_status (λ s. not (valid_member_status s))) ErrorCode.invalid_request
    refuse_if (actor.role == admin && given role (λ r. r == owner)) ErrorCode.forbidden
    on_repository (
        Member.update_member call.context (record {
          tenant_id = actor.identity.tenant_id;
          principal_id = principal_id;
          actor_principal_id = actor.identity.principal_id;
          actor_role = actor.role;
          role = role;
          status = new_status;
          now = call.now 0;
        }))

  unfoldable pub delete_member : Call → MemberActor → String → Action S (Unit {0})
  delete_member call actor id = do
    lift (validate_member_actor actor)
    require_id id
    on_repository (
        Member.delete_member call.context (record {
          tenant_id = actor.identity.tenant_id;
          principal_id = id;
          actor_principal_id = actor.identity.principal_id;
          actor_role = actor.role;
          now = call.now 0;
        }))

  unfoldable pub list_invitations :
      Call → MemberActor → Option InvitationStatus → ℤ → Action S (List TenantInvitation)
  list_invitations call actor wanted limit = do
    refuse_if (not (may_manage actor.role)) ErrorCode.forbidden
    refuse_if (given wanted (λ s. not (valid_invitation_status s))) ErrorCode.invalid_request
    on_repository
        (Invitation.list_invitations actor.identity.tenant_id wanted (count_of limit) (call.now 0))

  unfoldable pub revoke_invitation : Call → MemberActor → String → Action S TenantInvitation
  revoke_invitation call actor id = do
    lift (validate_member_actor actor)
    require_id id
    on_repository (
        Invitation.revoke_invitation call.context (record {
          tenant_id = actor.identity.tenant_id;
          invitation_id = id;
          actor_principal_id = actor.identity.principal_id;
          actor_role = actor.role;
          now = call.now 0;
        }))

module _ (platform : Platform) {S : Type 0} where
  -- `random` is what `rand.Read` gives: 32 bytes, or an error.
  unfoldable pub create_invitation :
      Call
      → Option (List ℕ)
      → MemberActor
      → String
      → String
      → String
      → AccessRole
      → ℕ
      → Action S InvitationOutput
  create_invitation call random actor issuer subject display_name role expires_at = do
    lift (validate_member_actor actor)
    refuse_if (not (may_manage actor.role)) ErrorCode.forbidden
    refuse_if
        (not (valid_invitation_identity issuer subject)
          || ltb 256 (len display_name)
          || not (valid_access_role role)
          || not (ltb (call.now 0) expires_at))
        ErrorCode.invalid_request
    id ← drawn (call.new_id 0)
    content ← drawn random
    let token : String = hex_encode content
    invitation ← on_repository (
        Invitation.create_invitation call.context (record {
          id = id;
          tenant_id = actor.identity.tenant_id;
          actor_principal_id = actor.identity.principal_id;
          actor_role = actor.role;
          issuer = issuer;
          subject = subject;
          display_name = display_name;
          role = role;
          token_hash = token_hash platform token;
          expires_at = expires_at;
          now = call.now 1;
        }))
    pure (record { invitation = invitation; token = token })

  -- The invitation, as far as it is known, stands beside the result.
  unfoldable pub accept_invitation :
      Call → String → String → String → World S → Acceptance × World S
  accept_invitation call token issuer subject w =
      if not (is_token token) || not (valid_invitation_identity issuer subject)
      then (record { invitation = none; result = fail ErrorCode.invalid_request }, w)
      else elim (call.new_id 0) [
        | none ↦ (record { invitation = none; result = fail ErrorCode.internal }, w)
        | some principal_id ↦
            let (answer, repository) =
              Invitation.accept_invitation call.context
                (record {
                  token_hash = token_hash platform token;
                  candidate_principal_id = principal_id;
                  issuer = issuer;
                  subject = subject;
                  now = call.now 0;
                })
                w.repository in
            (answer, record w { repository = repository })
      ]

  unfoldable pub list_members :
      StorageProvider S → Settings → Identity → String → ℤ → Action S (Page PrincipalRecord)
  list_members provider settings identity cursor limit = do
    require_id identity.tenant_id
    limit ← lift (page_limit limit)
    position ← lift (decode platform settings.cursor_key cursor identity.tenant_id "members")
    found ← reading (Member.list_members identity.tenant_id position limit)
    pure (page_of platform provider settings identity.tenant_id "members" member_position found)
