-- ===== src/Memory/Upload.antt =====
-- internal/memory/repository.go: the methods of an upload session, from its creation to its commit or abort.
pub mod Parts
pub mod Machine
pub mod Calls
pub mod History
pub mod Commit
use asteria_drive.Prelude.{
  ℕ, String, Bool, true, false, Option, none, some, List, [], ◌∷◌, ◌&&◌, ◌||◌, ltb, not, ◌==◌,
  string_eq, if◌then◌else◌,
}
use asteria_drive.Prelude.Int.{inc64}
use asteria_drive.Dict.{get, get_or, put, has}
use asteria_drive.Result.{Result, ok, err, ErrorCode}
use asteria_drive.Types.Access.{Identity}
use asteria_drive.Types.Group.{AuditEvent}
use asteria_drive.Types.Node.{
  Node, kind_eq, kind_text, directory, Blob, FileVersion, no_node, no_version, no_blob,
}
use asteria_drive.Types.Upload.{
  UploadSession, CompletedPart, CompleteResult, CreateUploadCommand, CommitUploadCommand,
  UploadStatus, created, uploading, completing, object_completed, committed, aborted, expired,
  failed, upload_status_eq, is_terminal, upload_failure_parent_unavailable,
  upload_failure_name_conflict,
}
use asteria_drive.Memory.State.{
  Repository, MaintenanceLease, no_lease, Outcome, accept, reject, active_node, upload_for,
  name_exists,
}
use asteria_drive.Memory.Idempotency.{complete_idempotency}
use asteria_drive.Memory.Audit.{CallContext, audit_event, audited, keep}

-- `r.uploads[id] = session`
abbrev pub store : String → UploadSession → Repository → Repository
store id s r = record r { uploads = put r.uploads id s }

-- `lease.cleanupPending = true` on the upload's lease.
abbrev pub request_cleanup : String → Repository → Repository
request_cleanup id r = record r {
  upload_maintenance =
      put r.upload_maintenance id
        (record (get_or no_lease r.upload_maintenance id) { cleanup_pending = true });
}

-- `session.Status = status; session.Revision++; session.UpdatedAt = now`
abbrev pub moved : UploadStatus → ℕ → UploadSession → UploadSession
moved status now s = record s { status = status; revision = inc64 s.revision; updated_at = now }

-- `!ok || parent.Kind != drive.NodeDirectory`, negated.
unfoldable pub has_directory : Repository → String → String → Bool
has_directory r tenant_id id = elim (active_node r tenant_id id) [
  | none ↦ false
  | some parent ↦ parent.kind == directory
]

unfoldable pub create_upload : CreateUploadCommand → Repository → Outcome UploadSession
create_upload c r =
    let s = c.session in
    if not (has_directory r s.tenant_id s.parent_id)
    then reject ErrorCode.not_found r
    else if name_exists r s.tenant_id s.parent_id s.normalized_name ""
    then reject ErrorCode.name_conflict r
    else if has r.uploads s.id
    then reject ErrorCode.idempotency_conflict r
    else let (completion, r') = complete_idempotency c.idempotency s.id s.created_at r in
      elim completion [ err e ↦ (err e, r') | ok _ ↦ accept s (store s.id s r') ]

unfoldable pub upload : Identity → String → Repository → Result UploadSession
upload identity id r = elim (upload_for r identity id) [
  | none ↦ err (record { code = ErrorCode.not_found; retryable = false })
  | some s ↦ ok s
]

unfoldable pub mark_uploading : Identity → String → ℕ → Repository → Outcome UploadSession
mark_uploading identity id now r = elim (upload_for r identity id) [
  | none ↦ reject ErrorCode.not_found r
  | some s ↦
      if s.status == uploading
      then accept s r
      else if not (s.status == created)
      then reject ErrorCode.invalid_state r
      else let s' = moved uploading now s in accept s' (store id s' r)
]

unfoldable pub begin_complete :
    Identity → String → String → List CompletedPart → ℕ → Repository → Outcome UploadSession
begin_complete identity id digest parts now r = elim (upload_for r identity id) [
  | none ↦ reject ErrorCode.not_found r
  | some s ↦
      if not (s.completion_digest == "") && not (s.completion_digest == digest)
      then reject ErrorCode.idempotency_conflict r
      else if s.status == committed || s.status == object_completed || s.status == completing
      then accept s r
      else if not (s.status == created) && not (s.status == uploading)
      then reject ErrorCode.invalid_state r
      else if not (ltb now s.expires_at)
      then reject ErrorCode.invalid_state r
      else let s' = record (moved completing now s) { completion_digest = digest } in
        accept s' (record (store id s' r) { parts = put r.parts id parts })
]

unfoldable pub fail_upload_completion :
    Identity → String → String → String → ℕ → Repository → Outcome UploadSession
fail_upload_completion identity id digest failure_code now r =
    if failure_code == ""
    then reject ErrorCode.invalid_request r
    else elim (upload_for r identity id) [
      | none ↦ reject ErrorCode.not_found r
      | some s ↦
          if not (s.completion_digest == digest)
          then reject ErrorCode.idempotency_conflict r
          else if s.status == failed
          then accept s r
          else if not (s.status == completing)
          then reject ErrorCode.invalid_state r
          else let s' = record (moved failed now s) { failure_code = failure_code } in
            accept s' (request_cleanup id (store id s' r))
    ]

unfoldable pub mark_object_completed : Identity → String → ℕ → Repository → Outcome UploadSession
mark_object_completed identity id now r = elim (upload_for r identity id) [
  | none ↦ reject ErrorCode.not_found r
  | some s ↦
      if s.status == object_completed || s.status == committed
      then accept s r
      else if not (s.status == completing)
      then reject ErrorCode.invalid_state r
      else let s' = moved object_completed now s in accept s' (store id s' r)
]

unfoldable pub abort_upload :
    Identity → String → UploadStatus → ℕ → Repository → Outcome UploadSession
abort_upload identity id target now r = elim (upload_for r identity id) [
  | none ↦ reject ErrorCode.not_found r
  | some s ↦
      if s.status == committed
      then reject ErrorCode.invalid_state r
      else if s.status == aborted || s.status == expired || s.status == failed
      then accept s r
      else if not (s.status == created) && not (s.status == uploading)
      then reject ErrorCode.invalid_state r
      else if not (target == aborted) && not (target == expired) && not (target == failed)
      then reject ErrorCode.invalid_state r
      else let s' = moved target now s in accept s' (request_cleanup id (store id s' r))
]

-- `completeResult`: what an upload that was committed before is answered.
unfoldable pub complete_result : Repository → UploadSession → CompleteResult
complete_result r s =
    let node = get_or no_node r.nodes s.committed_node_id in
    let version = get_or no_version r.versions node.current_version_id in
    record {
      upload = s;
      node = node;
      blob = get_or no_blob r.blobs version.blob_id;
      version = version;
    }

-- The commit that cannot be made: the session fails with the reason, and its object is to be cleaned up.
unfoldable pub fail_commit :
    UploadSession → String → ErrorCode → ℕ → Repository → Outcome (CompleteResult × Bool)
fail_commit s failure_code code now r =
    let s' = record (moved failed now s) { failure_code = failure_code } in
    reject code (request_cleanup s.id (store s.id s' r))

abbrev pub committed_session : CommitUploadCommand → UploadSession → UploadSession
committed_session c s = record (moved committed c.now s) { committed_node_id = c.node.id }

abbrev pub committed_event : CommitUploadCommand → UploadSession → AuditEvent
committed_event c s =
    audit_event c.identity.tenant_id c.identity.principal_id "upload.committed" "node" c.node.id
      c.now (("upload_id", s.id) ∷ ("kind", kind_text c.node.kind) ∷ [])

abbrev pub committed_result : CommitUploadCommand → UploadSession → CompleteResult
committed_result c s = record {
  upload = committed_session c s;
  node = c.node;
  blob = c.blob;
  version = c.version;
}

-- The writes of a commit, less the audit event.
abbrev pub publish : CommitUploadCommand → UploadSession → Repository → Repository
publish c s r = record r {
  blobs = put r.blobs c.blob.id c.blob;
  versions = put r.versions c.version.id c.version;
  nodes = put r.nodes c.node.id c.node;
  uploads = put r.uploads s.id (committed_session c s);
}

-- The result and whether this call made the commit.
unfoldable pub commit_upload :
    CallContext → CommitUploadCommand → Repository → Outcome (CompleteResult × Bool)
commit_upload ctx c r = elim (upload_for r c.identity c.session_id) [
  | none ↦ reject ErrorCode.not_found r
  | some s ↦
      if not (s.completion_digest == c.digest)
      then reject ErrorCode.idempotency_conflict r
      else if s.status == committed
      then accept (complete_result r s, false) r
      else if not (s.status == object_completed)
      then reject ErrorCode.invalid_state r
      else if not (has_directory r c.identity.tenant_id s.parent_id)
      then fail_commit s upload_failure_parent_unavailable ErrorCode.not_found c.now r
      else if name_exists r s.tenant_id s.parent_id s.normalized_name ""
      then fail_commit s upload_failure_name_conflict ErrorCode.name_conflict c.now r
      else audited ctx (committed_event c s) keep (committed_result c s, true) (publish c s r)
]

unfoldable pub mark_upload_cleanup_complete : Identity → String → Repository → Outcome (Unit {0})
mark_upload_cleanup_complete identity id r = elim (upload_for r identity id) [
  | none ↦ reject ErrorCode.not_found r
  | some s ↦
      if not (is_terminal s.status)
      then reject ErrorCode.invalid_state r
      else let lease = get_or no_lease r.upload_maintenance id in
        accept tt (record r {
          upload_maintenance =
              put r.upload_maintenance id
                (record lease { cleanup_pending = false; error_code = ""; not_before = 0 });
        })
]
