-- ===== src/Examples/Records.antt =====
-- The theorems on invitations, the audit log and maintenance leases.
use asteria_drive.Prelude.{
  ◌≡◌, ◌≢◌, ◌≤◌, String, true, false, none, some, [], ◌∷◌, arith, refl, inr, ◌==◌, string_eq,
  str_beq, str_beq_iff, length, filter, sort_by, insert_by,
}
use mathlib.Core.List.{Memᴰ}
use asteria_drive.Prelude.Int.{pos}
use asteria_drive.Dict.{get, get_or, put, any_entry}
use asteria_drive.Result.{ok, ErrorCode}
use asteria_drive.Text.{is_blank, json_map_size}
use asteria_drive.Validation.{valid_id}
use asteria_drive.Types.Access.{viewer}
use asteria_drive.Types.Group.{AuditFilter}
use asteria_drive.Types.Invitation
use asteria_drive.Types.Invitation.{TenantInvitation, no_invitation, AcceptInvitationCommand}
use asteria_drive.Types.Upload.{created, failed, UploadMaintenanceClaim}
use asteria_drive.Memory.State.{Repository, new_repository, member_key, principal_key, reject}
use asteria_drive.Memory.Audit.{audit_event, list_audit, append_audit, metadata_is_bounded}
use asteria_drive.Memory.Audit.Reads.{AllMatch, list_audit-bounded}
use asteria_drive.Memory.Invitation.{
  accept_invitation, bad_identity_text, join, joined, accepting_principal,
}
use asteria_drive.Memory.Invitation.Accepting.{accept_by_another, accept_replay}
use asteria_drive.Memory.Maintenance.{
  claim_uploads_for_maintenance, needs_maintenance, finish_upload_maintenance, is_blocked, is_due,
  is_stale, lease_uploads,
}
use asteria_drive.Memory.Maintenance.Leases.{AllKeyed, claim_exclusive}
use asteria_drive.Examples.Fixtures.{
  context, alice_id, tenant_id, digest_a, session, repository, with_session,
}

abbrev invitation : TenantInvitation
invitation = record no_invitation {
  id = "invitation";
  tenant_id = tenant_id;
  issuer = "issuer";
  subject = "dave";
  role = viewer;
  status = Invitation.pending;
  expires_at = 100;
}

abbrev invited : Repository
invited = record repository {
  invitations = ("invitation", invitation) ∷ [];
  invitation_tokens = (digest_a, "invitation") ∷ [];
}

abbrev dave_id : String
dave_id = "00000000-0000-4000-8000-00000000000d"

abbrev acceptance : String → AcceptInvitationCommand
acceptance subject = record {
  token_hash = digest_a;
  candidate_principal_id = dave_id;
  issuer = "issuer";
  subject = subject;
  now = 7;
}

token : get invited.invitation_tokens digest_a ≡ some "invitation"
unfolding get str_beq
token = refl

recorded : get invited.invitations "invitation" ≡ some invitation
unfolding get str_beq
recorded = refl

not_dave : (invitation.subject == (acceptance "eve").subject) ≡ false
unfolding str_beq
not_dave = refl

accept_by_another_example :
    ((accept_invitation context (acceptance "eve") invited).1 ≡ invited)
    × ((accept_invitation context (acceptance "eve") invited).0.result
        ≢ ok (joined invitation "Team" (accepting_principal invitation dave_id none)))
accept_by_another_example =
    accept_by_another context (acceptance "eve") invited "invitation" invitation
      (joined invitation "Team" (accepting_principal invitation dave_id none)) token recorded
      (inr not_dave)

accepts :
    (accept_invitation context (acceptance "dave") invited).0.result
    ≡ ok (joined invitation "Team" (accepting_principal invitation dave_id none))
unfolding accept_invitation join append_audit metadata_is_bounded json_map_size get get_or put
    bad_identity_text is_blank valid_id str_beq principal_key member_key accepting_principal
    any_entry
accepts = refl

alice_valid : valid_id alice_id ≡ true
unfolding valid_id
alice_valid = refl

accept_replay_example :
    accept_invitation context
      (record (acceptance "dave") { candidate_principal_id = alice_id; now = 900 })
      (accept_invitation context (acceptance "dave") invited).1
    ≡ accept_invitation context (acceptance "dave") invited
accept_replay_example =
    accept_replay context context (acceptance "dave") invited
      (joined invitation "Team" (accepting_principal invitation dave_id none)) alice_id 900 accepts
      alice_valid

abbrev logged : Repository
logged = record new_repository {
  audit = audit_event tenant_id alice_id "node.created" "node" "a" 1 [] ∷ [];
}

abbrev audit_filter : AuditFilter
audit_filter = record {
  tenant_id = tenant_id;
  after_sequence = pos 0;
  from = 0;
  until = 0;
  limit = pos 10;
}

list_audit-bounded_example :
    AllMatch audit_filter (list_audit logged audit_filter)
    × (length (list_audit logged audit_filter) ≤ 10)
list_audit-bounded_example = list_audit-bounded logged audit_filter 10 refl (omega arith)

abbrev overdue : Repository
overdue = with_session (session created "")

abbrev first_claim : UploadMaintenanceClaim
first_claim = record {
  upload = session created "";
  owner = "worker";
  cleanup_pending = false;
  attempts = pos 0;
}

claimed : (claim_uploads_for_maintenance "worker" 200 0 300 10 overdue).0 ≡ first_claim ∷ []
unfolding claim_uploads_for_maintenance lease_uploads needs_maintenance is_blocked is_due is_stale
    get get_or str_beq filter sort_by insert_by
claimed = refl

in_claim : Memᴰ first_claim (claim_uploads_for_maintenance "worker" 200 0 300 10 overdue).0
in_claim = rw claimed (Memᴰ.head refl)

overdue_keyed : AllKeyed overdue.uploads
overdue_keyed = AllKeyed.cons "upload" (session created "") [] refl AllKeyed.nil

others : "other" ≢ first_claim.owner
unfolding str_beq
others = ground (arith, str_beq_iff "other" first_claim.owner)

claim_exclusive_example :
    let r' = (claim_uploads_for_maintenance "worker" 200 0 300 10 overdue).1 in
    (needs_maintenance r' 299 0 ("upload", session created "") ≡ false)
    × (finish_upload_maintenance "other" "upload" failed true 0 "" 250 r'
        ≡ reject ErrorCode.invalid_state r')
claim_exclusive_example =
    claim_exclusive "worker" "other" 200 0 300 10 overdue first_claim 299 0 0 250
      (session created "") failed true "" overdue_keyed in_claim (omega arith) others
