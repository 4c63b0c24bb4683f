-- ===== src/Memory/Invitation.antt =====
-- internal/memory/governance.go: invitations of new members.
pub mod Accepting
use asteria_drive.Prelude.{
  ℕ, String, len, Bool, true, false, Option, none, some, List, [], ◌∷◌, ◌&&◌, ◌||◌, ltb, not, ◌==◌,
  string_eq, nat_eq, length, filter, sort_by, take, if◌then◌else◌,
}
use asteria_drive.Dict.{Dict, get, get_or, put, delete, values, any_entry, update_all}
use asteria_drive.Text.{is_blank}
use asteria_drive.Result.{Result, ok, err, DriveError, fail, ErrorCode}
use asteria_drive.Types.Access.{
  AccessRole, owner, admin, role_eq, role_text, valid_access_role, active, PrincipalRecord,
  no_tenant, unset, no_status,
}
use asteria_drive.Types.Group.{AuditEvent}
use asteria_drive.Types.Invitation
use asteria_drive.Types.Invitation.{
  InvitationStatus, pending, accepted, revoked, expired, invitation_status_eq, TenantInvitation,
  no_invitation, CreateInvitationCommand, AcceptInvitationCommand, RevokeInvitationCommand,
}
use asteria_drive.Validation.{valid_id}
use asteria_drive.Memory.State.{Repository, Outcome, accept, reject, principal_key, member_key}
use asteria_drive.Memory.Audit.{CallContext, audit_event, audited, append_audit, keep}
use asteria_drive.Memory.Member.{managing_actor}

unfoldable pub bad_identity_text : String → Bool
bad_identity_text s = s == "" || is_blank s || ltb 512 (len s)

-- The second test of `CreateInvitation`, on the command alone.
unfoldable pub invalid_invitation : CreateInvitationCommand → Bool
invalid_invitation c =
    not (valid_id c.id)
    || not (valid_id c.tenant_id)
    || not (valid_id c.actor_principal_id)
    || not (valid_access_role c.actor_role)
    || bad_identity_text c.issuer
    || bad_identity_text c.subject
    || ltb 256 (len c.display_name)
    || not (len c.token_hash == 64)
    || not (valid_access_role c.role)
    || not (ltb c.now c.expires_at)

abbrev pub is_pending_for : String → String → String → TenantInvitation → Bool
is_pending_for tenant_id issuer subject v =
    v.tenant_id == tenant_id && v.issuer == issuer && v.subject == subject && v.status == pending

abbrev pub new_invitation : CreateInvitationCommand → TenantInvitation
new_invitation c = record no_invitation {
  id = c.id;
  tenant_id = c.tenant_id;
  issuer = c.issuer;
  subject = c.subject;
  display_name = c.display_name;
  role = c.role;
  status = pending;
  created_by = c.actor_principal_id;
  expires_at = c.expires_at;
  created_at = c.now;
  updated_at = c.now;
}

unfoldable pub create_invitation :
    CallContext → CreateInvitationCommand → Repository → Outcome TenantInvitation
create_invitation ctx c r =
    if not (managing_actor r c.tenant_id c.actor_principal_id c.actor_role)
    then reject ErrorCode.forbidden r
    else if invalid_invitation c
    then reject ErrorCode.invalid_request r
    else if c.actor_role == admin && c.role == owner
    then reject ErrorCode.forbidden r
    else if any_entry (λ _ v. is_pending_for c.tenant_id c.issuer c.subject v) r.invitations
    then reject ErrorCode.name_conflict r
    else audited ctx
        (audit_event c.tenant_id c.actor_principal_id "tenant.invitation.created" "invitation" c.id
          c.now (("role", role_text c.role) ∷ []))
        (λ s. record s {
          invitations = delete s.invitations c.id;
          invitation_tokens = delete s.invitation_tokens c.token_hash;
        })
        (new_invitation c)
        (record r {
          invitations = put r.invitations c.id (new_invitation c);
          invitation_tokens = put r.invitation_tokens c.token_hash c.id;
        })

-- The write in the loop of `ListInvitations`.
unfoldable pub expire_if_due : String → ℕ → TenantInvitation → TenantInvitation
expire_if_due tenant_id now v =
    if v.tenant_id == tenant_id && v.status == pending && not (ltb now v.expires_at)
    then record v { status = expired; updated_at = now }
    else v

-- `now` is the `time.Now` of the call; the status filter is absent when it is the empty string.
unfoldable pub list_invitations :
    String → Option InvitationStatus → ℕ → ℕ → Repository → Outcome (List TenantInvitation)
list_invitations tenant_id status limit now r = elim (get r.tenants tenant_id) [
  | none ↦ reject ErrorCode.not_found r
  | some _ ↦
      let invitations = update_all (λ _ v. expire_if_due tenant_id now v) r.invitations in
      let out =
        sort_by (λ a b. ltb b.created_at a.created_at)
          (filter
            (λ v. v.tenant_id == tenant_id && elim status [ none ↦ true | some s ↦ v.status == s ])
            (values invitations)) in
      accept (if ltb 0 limit && ltb limit (length out) then take limit out else out)
        (record r { invitations = invitations })
]

-- What `AcceptInvitation` returns beside its repository: the invitation, the member, and the error.
pub record Acceptance : Type 0 where
  pub invitation : Option TenantInvitation
  pub result : Result PrincipalRecord

abbrev refuse : ErrorCode → Option TenantInvitation → Repository → Acceptance × Repository
refuse code v r = (record { invitation = v; result = fail code }, r)

abbrev or_default : {A : Type 0} → A → Option A → A
or_default a none = a
or_default a (some b) = b

-- The principal that accepts, as it is recorded or as it is made.
unfoldable pub accepting_principal :
    TenantInvitation → String → Option PrincipalRecord → PrincipalRecord
accepting_principal v candidate_principal_id (some p) = p
accepting_principal v candidate_principal_id none = record {
  identity = record { tenant_id = ""; principal_id = candidate_principal_id };
  issuer = v.issuer;
  subject = v.subject;
  display_name = v.display_name;
  tenant_display_name = "";
  role = unset;
  status = no_status;
}

abbrev pub joined : TenantInvitation → String → PrincipalRecord → PrincipalRecord
joined v tenant_display_name p = record {
  identity = record { tenant_id = v.tenant_id; principal_id = p.identity.principal_id };
  issuer = p.issuer;
  subject = p.subject;
  display_name = p.display_name;
  tenant_display_name = tenant_display_name;
  role = v.role;
  status = active;
}

abbrev pub accepted_invitation : TenantInvitation → String → ℕ → TenantInvitation
accepted_invitation v principal_id now = record v {
  status = accepted;
  accepted_principal_id = principal_id;
  accepted_at = some now;
  updated_at = now;
}

-- The end of `AcceptInvitation`: a live invitation is turned into a membership.
unfoldable pub join :
    CallContext
    → AcceptInvitationCommand
    → String
    → TenantInvitation
    → Repository
    → Acceptance × Repository
join ctx c id v r =
    let found = get r.principals (principal_key v.issuer v.subject) in
    let p = accepting_principal v c.candidate_principal_id found in
    let key = member_key v.tenant_id p.identity.principal_id in
    let m =
      or_default (joined v (get_or no_tenant r.tenants v.tenant_id).display_name p)
        (get r.members key) in
    let v' = accepted_invitation v p.identity.principal_id c.now in
    let (result, r') =
      append_audit ctx
        (audit_event v.tenant_id p.identity.principal_id "tenant.invitation.accepted" "invitation"
          v.id c.now (("principal_id", p.identity.principal_id) ∷ []))
        (record r {
          principals = elim found [
            | none ↦ put r.principals (principal_key v.issuer v.subject) p
            | some _ ↦ r.principals
          ];
          members = put r.members key m;
          invitations = put r.invitations id v';
        }) in
    elim result [
      | ok _ ↦ (record { invitation = some v'; result = ok m }, r')
      | err e ↦ (record { invitation = none; result = err e }, r')
    ]

unfoldable pub accept_invitation :
    CallContext → AcceptInvitationCommand → Repository → Acceptance × Repository
accept_invitation ctx c r =
    if not (len c.token_hash == 64)
      || not (valid_id c.candidate_principal_id)
      || bad_identity_text c.issuer
      || bad_identity_text c.subject
    then refuse ErrorCode.invalid_request none r
    else elim (get r.invitation_tokens c.token_hash) [
      | none ↦ refuse ErrorCode.not_found none r
      | some id ↦
          let v = get_or no_invitation r.invitations id in
          if not (v.issuer == c.issuer) || not (v.subject == c.subject)
          then refuse ErrorCode.forbidden none r
          else if v.status == accepted
          then elim (get r.members (member_key v.tenant_id v.accepted_principal_id)) [
            | none ↦ refuse ErrorCode.internal (some v) r
            | some m ↦ (record { invitation = some v; result = ok m }, r)
          ]
          else if not (v.status == pending)
          then refuse ErrorCode.invalid_state (some v) r
          else if not (ltb c.now v.expires_at)
          then (let v' = record v { status = expired; updated_at = c.now } in
              refuse ErrorCode.invalid_state (some v')
                (record r { invitations = put r.invitations id v' }))
          else elim (get r.principals (principal_key v.issuer v.subject)) [
            | none ↦ join ctx c id v r
            | some p ↦
                if p.identity.principal_id == c.candidate_principal_id
                then join ctx c id v r
                else refuse ErrorCode.name_conflict (some v) r
          ]
    ]

unfoldable pub revoke_invitation :
    CallContext → RevokeInvitationCommand → Repository → Outcome TenantInvitation
revoke_invitation ctx c r =
    if not (valid_id c.tenant_id)
      || not (valid_id c.invitation_id)
      || not (valid_id c.actor_principal_id)
      || not (valid_access_role c.actor_role)
    then reject ErrorCode.invalid_request r
    else if not (managing_actor r c.tenant_id c.actor_principal_id c.actor_role)
    then reject ErrorCode.forbidden r
    else elim (get r.invitations c.invitation_id) [
      | none ↦ reject ErrorCode.not_found r
      | some v ↦
          if not (v.tenant_id == c.tenant_id)
          then reject ErrorCode.not_found r
          else if not (v.status == pending)
          then reject ErrorCode.invalid_state r
          else let v' = record v {
            status = revoked;
            revoked_at = some c.now;
            updated_at = c.now;
          } in
            audited ctx
              (audit_event c.tenant_id c.actor_principal_id "tenant.invitation.revoked" "invitation"
                v.id c.now [])
              keep v' (record r { invitations = put r.invitations v.id v' })
    ]
