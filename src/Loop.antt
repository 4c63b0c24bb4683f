-- ===== src/Loop.antt =====
-- internal/maintenance/loop.go: the maintenance loop: its options, the delays and what an attempt draws.
-- What the metrics are told is left out, and so is the timer between the rounds.
pub mod Uploads
pub mod Recycle
pub mod Rounds
use asteria_drive.Prelude.{
  ℕ, ◌+◌, ◌-◌, ◌*◌, ◌/◌, ◌^◌, String, Bool, true, false, Option, none, some, List, [], ◌∷◌, ◌&&◌,
  ◌||◌, not, ltb, ◌==◌, if◌then◌else◌,
}
use asteria_drive.Prelude.Int.{ℤ, pos, negsuc, int_eq}
use asteria_drive.Result.{DriveError, Result, ok, err, fail, ErrorCode, code_of}
use asteria_drive.Types.Access.{Identity}
use asteria_drive.Types.Node.{Blob, PurgePlan}
use asteria_drive.Types.Upload.{
  UploadSession, UploadStatus, upload_status_eq, created, uploading, completing, object_completed,
  expired, failed, is_terminal, UploadMaintenanceClaim, RecycleMaintenanceClaim,
}
use asteria_drive.Types.Storage.{ObjectInfo, StorageProvider}
use asteria_drive.Memory.Upload.{mark_object_completed, commit_upload}
use asteria_drive.Memory.Recycle.{prepare_purge, finish_purge}
use asteria_drive.Memory.Maintenance.{
  claim_uploads_for_maintenance, finish_upload_maintenance, claim_recycle_for_maintenance,
  release_recycle_maintenance, delete_expired_idempotency,
}
use asteria_drive.Service.{
  Call, Action, pure, raise, lift, on_repository, on_storage, attempt, ignore, ◌>>=◌, ◌>>◌,
  is_missing, second, positive_or,
}
use asteria_drive.Service.Completion.{failed_upload_has_object}
use asteria_drive.Service.Publishing.{commit_command}

pub record LoopOptions : Type 0 where
  pub interval : ℤ
  pub lease_duration : ℤ
  pub stale_after : ℤ
  pub recycle_retention : ℤ
  pub batch_size : ℤ

-- `Loop`, less the repository, the storage, the metrics and the clock.
pub record Loop : Type 0 where
  pub interval : ℕ
  pub lease_duration : ℕ
  pub stale_after : ℕ
  pub recycle_retention : ℕ
  pub batch_size : ℕ
  pub owner : String

-- `New`, once repository and storage are given; the owner is drawn from `NewID`.
unfoldable pub new_loop : LoopOptions → Option String → Result Loop
new_loop o drawn =
    let batch_size = positive_or o.batch_size 50 in
    if ltb 1000 batch_size then fail ErrorCode.invalid_request else elim drawn [
      | none ↦ fail ErrorCode.internal
      | some owner ↦ ok (record {
        interval = positive_or o.interval (60 * second);
        lease_duration = positive_or o.lease_duration (2 * 60 * second);
        stale_after = positive_or o.stale_after (15 * 60 * second);
        recycle_retention = positive_or o.recycle_retention (30 * 24 * 3600 * second);
        batch_size = batch_size;
        owner = owner;
      })
    ]

-- What the work on one claim draws: a call's draws, and `rand.Int64N`.
pub record Turn : Type 0 where
  pub call : Call
  pub random : ℕ → ℕ

-- The quarter of a delay that is left to chance.
abbrev pub jitter : ℕ → ℕ
jitter delay = if ltb 1 (delay / 4) then delay / 4 else 1

unfoldable pub backoff : (ℕ → ℕ) → ℕ → ℕ
backoff random attempt =
    let delay = second * 2 ^ (if ltb 8 attempt then 8 else attempt) in delay + random (jitter delay)

-- A claim's attempts start at 0 and grow; `1 << attempt` has no value below.
abbrev pub attempt_count : ℤ → ℕ
attempt_count (pos n) = n
attempt_count (negsuc n) = 0

unfoldable pub maintenance_error_code : ErrorCode → String
maintenance_error_code ErrorCode.dependency_unavailable = "dependency_unavailable"
maintenance_error_code ErrorCode.not_found = "not_found"
maintenance_error_code ErrorCode.invalid_request = "rejected"
maintenance_error_code ErrorCode.invalid_state = "rejected"
maintenance_error_code ErrorCode.name_conflict = "rejected"
maintenance_error_code _ = "internal"

-- What is left of an error that says there was nothing to clean up.
unfoldable pub forgive_missing : Result (Unit {0}) → Result (Unit {0})
forgive_missing (ok _) = ok tt
forgive_missing (err e) = if is_missing (code_of e) then ok tt else err e

abbrev pub succeeded : Result (Unit {0}) → Bool
succeeded (ok _) = true
succeeded (err _) = false

abbrev pub is_conflict : ErrorCode → Bool
is_conflict ErrorCode.name_conflict = true
is_conflict ErrorCode.not_found = true
is_conflict _ = false

abbrev pub three_ids : Call → Option (String × String × String)
three_ids call = elim (call.new_id 0) [
  | none ↦ none
  | some a ↦ elim (call.new_id 1) [
    | none ↦ none
    | some b ↦ elim (call.new_id 2) [ none ↦ none | some c ↦ some (a, b, c) ]
  ]
]

-- The status of a session whose object is recorded as completed.
abbrev pub recorded_status : UploadSession → UploadStatus
recorded_status upload = if upload.status == completing then object_completed else upload.status
