-- ===== src/Loop/Uploads.antt =====
-- internal/maintenance/loop.go: the work on the upload sessions that a round has claimed.
pub mod Progress
use asteria_drive.Prelude.{
  ℕ, ◌+◌, ◌-◌, String, Bool, true, none, some, List, [], ◌∷◌, ◌&&◌, ◌||◌, not, ◌==◌, if◌then◌else◌,
}
use asteria_drive.Prelude.Int.{int_eq}
use asteria_drive.Result.{Result, ok, err, fail, ErrorCode, code_of}
use asteria_drive.Types.Access.{Identity}
use asteria_drive.Types.Upload.{
  UploadSession, UploadStatus, upload_status_eq, created, uploading, completing, expired, failed,
  is_terminal, UploadMaintenanceClaim,
}
use asteria_drive.Types.Storage.{ObjectInfo, StorageProvider}
use asteria_drive.Memory.Upload.{mark_object_completed, commit_upload}
use asteria_drive.Memory.Maintenance.{claim_uploads_for_maintenance, finish_upload_maintenance}
use asteria_drive.Service.{
  Action, pure, lift, on_repository, on_storage, attempt, ignore, ◌>>=◌, ◌>>◌, is_missing,
}
use asteria_drive.Service.Completion.{failed_upload_has_object}
use asteria_drive.Service.Publishing.{commit_command}
use asteria_drive.Loop.{
  Loop, Turn, backoff, attempt_count, maintenance_error_code, forgive_missing, succeeded,
  is_conflict, three_ids, recorded_status,
}

module _ {S : Type 0} (provider : StorageProvider S) where
  -- `cleanupUpload`, with its error as a value
  unfoldable pub cleanup_upload : UploadSession → Action S (Result (Unit {0}))
  cleanup_upload upload = do
    answer ← attempt (
        on_storage (
          if upload.status == failed && failed_upload_has_object upload.failure_code
          then provider.delete_object upload.object_key
          else provider.abort_multipart upload.object_key upload.storage_upload_id))
    pure (forgive_missing answer)

  -- `finishUpload`
  unfoldable pub finish_upload :
      Turn
      → UploadMaintenanceClaim
      → UploadStatus
      → Bool
      → Result (Unit {0})
      → ℕ
      → Action S (Unit {0})
  finish_upload turn claim reached complete work now = do
    on_repository (
        finish_upload_maintenance claim.owner claim.upload.id reached complete
          (elim work [
            | ok _ ↦ 0
            | err _ ↦ now + backoff turn.random (attempt_count claim.attempts)
          ])
          (elim work [ ok _ ↦ "" | err e ↦ maintenance_error_code (code_of e) ]) now)
    lift work

  -- The cleanup, and the note that it has gone through or is to be tried again.
  unfoldable pub cleanup_and_finish :
      Turn → UploadMaintenanceClaim → UploadStatus → ℕ → Action S (Unit {0})
  cleanup_and_finish turn claim reached now = do
    cleaned ← cleanup_upload claim.upload
    finish_upload turn claim reached (succeeded cleaned) cleaned now

  unfoldable pub delete_and_finish : Turn → UploadMaintenanceClaim → ℕ → Action S (Unit {0})
  delete_and_finish turn claim now = do
    deleted ← attempt (on_storage (provider.delete_object claim.upload.object_key))
    finish_upload turn claim failed (succeeded deleted) deleted now

  unfoldable pub commit_and_finish :
      Turn
      → UploadMaintenanceClaim
      → Identity
      → ObjectInfo
      → String × String × String
      → ℕ
      → Action S (Unit {0})
  commit_and_finish turn claim identity object (blob_id, node_id, version_id) now = do
    answer ← attempt (
        on_repository (
          commit_upload turn.call.context (
            commit_command identity claim.upload.id claim.upload claim.upload.completion_digest
              object blob_id node_id version_id [] now)))
    elim answer [
      | ok (result, first) ↦ finish_upload turn claim result.upload.status true (ok tt) now
      | err e ↦
          if is_conflict (code_of e)
          then delete_and_finish turn claim now
          else finish_upload turn claim (recorded_status claim.upload) true (err e) now
    ]

  -- `MarkObjectCompleted`, with its error as a value
  unfoldable pub mark_object : Identity → UploadSession → ℕ → Action S (Result (Unit {0}))
  mark_object identity upload now = do
    marked ← attempt (on_repository (mark_object_completed identity upload.id now))
    pure (elim marked [ ok _ ↦ ok tt | err e ↦ err e ])

  -- An object of the size that was declared is published.
  unfoldable pub publish_and_finish :
      Turn → UploadMaintenanceClaim → ObjectInfo → ℕ → Action S (Unit {0})
  publish_and_finish turn claim object now = do
    let upload : UploadSession = claim.upload
    let identity : Identity = record {
      tenant_id = upload.tenant_id;
      principal_id = upload.principal_id;
    }
    recorded ← if upload.status == completing then mark_object identity upload now else pure (ok tt)
    elim recorded [
      | err e ↦ finish_upload turn claim upload.status true (err e) now
      | ok _ ↦ elim (three_ids turn.call) [
        | none ↦
            finish_upload turn claim (recorded_status claim.upload) true (fail ErrorCode.internal)
              now
        | some ids ↦ commit_and_finish turn claim identity object ids now
      ]
    ]

  unfoldable pub settle_object :
      Turn → UploadMaintenanceClaim → Result ObjectInfo → ℕ → Action S (Unit {0})
  settle_object turn claim (err e) now =
      if is_missing (code_of e)
      then cleanup_and_finish turn claim failed now
      else finish_upload turn claim claim.upload.status true (err e) now
  settle_object turn claim (ok object) now =
      if not (object.size == claim.upload.expected_size)
      then delete_and_finish turn claim now
      else publish_and_finish turn claim object now

  unfoldable pub find_and_settle : Turn → UploadMaintenanceClaim → ℕ → Action S (Unit {0})
  find_and_settle turn claim now = do
    seen ← attempt (on_storage (provider.stat_object claim.upload.object_key))
    settle_object turn claim seen now

  unfoldable pub process_upload : Turn → UploadMaintenanceClaim → Action S (Unit {0})
  process_upload turn claim =
      if claim.cleanup_pending || is_terminal claim.upload.status
      then cleanup_and_finish turn claim claim.upload.status (turn.call.now 0)
      else if claim.upload.status == created || claim.upload.status == uploading
      then cleanup_and_finish turn claim expired (turn.call.now 0)
      else find_and_settle turn claim (turn.call.now 0)

  -- The loop of `runUploads`: what becomes of one claim does not stop the others.
  unfoldable pub process_uploads :
      (ℕ → Turn) → ℕ → List UploadMaintenanceClaim → Action S (Unit {0})
  process_uploads turns k [] = pure tt
  process_uploads turns k (claim ∷ claims) =
      ignore (process_upload (turns k) claim) >> process_uploads turns (k + 1) claims

  unfoldable pub run_uploads : Loop → (ℕ → Turn) → ℕ → Action S (Unit {0})
  run_uploads l turns now = do
    claims ← on_repository (λ r.
        let (claims, r') =
          claim_uploads_for_maintenance l.owner now (now - l.stale_after) (now + l.lease_duration)
            l.batch_size r in
        (ok claims, r'))
    process_uploads turns 0 claims
