-- ===== src/Loop/Uploads/Progress.antt =====
-- internal/maintenance/loop.go: the loop ends a session that it has claimed, whatever the storage answers.
use asteria_drive.Prelude.{ℕ, String, some, ◌≡◌, ◌+◌, not, string_eq}
use asteria_drive.Prelude.Int.{inc64}
use asteria_drive.Dict.{get}
use asteria_drive.Result.{Result, ok, err, code_of}
use asteria_drive.Types.Upload.{UploadSession, UploadStatus, UploadMaintenanceClaim}
use asteria_drive.Types.Storage.{StorageProvider}
use asteria_drive.Memory.State.{Repository, Outcome, MaintenanceLease}
use asteria_drive.Memory.Maintenance.{finish_upload_maintenance}
use asteria_drive.Service.{World}
use asteria_drive.Loop.{Turn, backoff, attempt_count, maintenance_error_code, succeeded}

-- A claim that its owner still holds, on the session `u`.
pub record IsHeld (r : Repository) (claim : UploadMaintenanceClaim) (u : UploadSession)
    : Type 0 where
  pub lease : MaintenanceLease
  pub leased : get r.upload_maintenance claim.upload.id ≡ some lease
  pub owned : lease.owner ≡ claim.owner
  pub stored : get r.uploads claim.upload.id ≡ some u

-- The session as the loop leaves it.
abbrev pub ended : UploadStatus → ℕ → UploadSession → UploadSession
ended reached now u = record u { status = reached; updated_at = now; revision = inc64 u.revision }

module _ {S : Type 0} (provider : StorageProvider S) (turn : Turn)
    (claim : UploadMaintenanceClaim) where
  -- When failed work is to be tried again, and what is noted of it.
  abbrev pub retry_time : ℕ → Result (Unit {0}) → ℕ
  retry_time now work = elim work [
    | ok _ ↦ 0
    | err _ ↦ now + backoff turn.random (attempt_count claim.attempts)
  ]

  abbrev pub failure_text : Result (Unit {0}) → String
  failure_text work = elim work [ ok _ ↦ "" | err e ↦ maintenance_error_code (code_of e) ]

  -- What the work leaves: the session has the status, nobody holds the claim, and the cleanup is still to do,
  -- from the time of the next attempt on, unless the work has succeeded.
  abbrev pub Ends : Repository → UploadSession → UploadStatus → ℕ → Result (Unit {0}) → Type 0
  Ends r u reached now work =
      (get r.uploads claim.upload.id ≡ some (ended reached now u))
      × ((lease : MaintenanceLease) × (get r.upload_maintenance claim.upload.id ≡ some lease)
          × (lease.owner ≡ "")
          × (lease.until ≡ 0)
          × (lease.cleanup_pending ≡ not (succeeded work))
          × (lease.not_before ≡ retry_time now work)
          × (lease.error_code ≡ failure_text work))

  finish_call : UploadStatus → Result (Unit {0}) → ℕ → Repository → Outcome (Unit {0})
  finish_call reached work now =
      finish_upload_maintenance claim.owner claim.upload.id reached (succeeded work)
        (retry_time now work) (failure_text work) now

  -- What the storage makes of the multipart upload.
  abbrev aborted : World S → Result (Unit {0}) × S
  aborted w =
      provider.abort_multipart claim.upload.object_key claim.upload.storage_upload_id w.storage
