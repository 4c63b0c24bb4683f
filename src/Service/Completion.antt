-- ===== src/Service/Completion.antt =====
-- internal/drive/service.go: the completion and the abort of an upload.
pub mod Accepted
use asteria_drive.Prelude.{
  String, Bool, true, false, List, ◌&&◌, ◌||◌, not, ◌==◌, string_eq, sort_by, if◌then◌else◌,
}
use asteria_drive.Prelude.Int.{int_eq, ltb_ℤ}
use asteria_drive.Text.{hex_encode}
use asteria_drive.Result.{DriveError, Result, ok, err, fail, fail_retryable, ErrorCode, code_of}
use asteria_drive.Types.Access.{Identity}
use asteria_drive.Types.Node.{
  Node, Blob, FileVersion, Checksum, no_checksum, ChecksumStatus, file, available,
}
use asteria_drive.Types.Node
use asteria_drive.Types.Upload.{
  UploadSession, CompletedPart, upload_status_eq, upload_failure_storage_rejected,
  upload_failure_size_mismatch, upload_failure_checksum_mismatch, upload_failure_parent_unavailable,
  upload_failure_name_conflict,
}
use asteria_drive.Types.Storage.{ObjectInfo, StorageProvider}
use asteria_drive.Platform.{Platform}
use asteria_drive.Validation.Names.{valid_checksum}
use asteria_drive.Memory.Upload.{fail_upload_completion, mark_upload_cleanup_complete}
use asteria_drive.Service.{
  Call, Action, pure, raise, refuse_retryable, on_repository, on_storage, attempt, ignore, ◌>>=◌,
  ◌>>◌, is_missing, map_storage_error,
}

pub record CompleteOutput : Type 0 where
  pub upload : UploadSession
  pub node : Node
  pub first : Bool

abbrev pub is_unavailable : ErrorCode → Bool
is_unavailable ErrorCode.dependency_unavailable = true
is_unavailable _ = false

abbrev pub is_invalid_request : ErrorCode → Bool
is_invalid_request ErrorCode.invalid_request = true
is_invalid_request _ = false

abbrev pub is_name_conflict : ErrorCode → Bool
is_name_conflict ErrorCode.name_conflict = true
is_name_conflict _ = false

-- `failedUploadHasObject`
unfoldable pub failed_upload_has_object : String → Bool
failed_upload_has_object code =
    code == upload_failure_size_mismatch
    || code == upload_failure_checksum_mismatch
    || code == upload_failure_parent_unavailable
    || code == upload_failure_name_conflict

abbrev same_checksum : Checksum → Checksum → Bool
same_checksum a b = a.algorithm == b.algorithm && a.value == b.value

-- When the storage has let go of the bytes, the cleanup is noted, whatever the note returns.
unfoldable pub note_cleanup :
    {S : Type 0} → Identity → String → Result (Unit {0}) → Action S (Unit {0})
note_cleanup identity upload_id (ok _) =
    ignore (on_repository (mark_upload_cleanup_complete identity upload_id))
note_cleanup identity upload_id (err _) = pure tt

module _ (platform : Platform) where
  open platform use {sha256, marshal_parts}

  unfoldable pub parts_digest : List CompletedPart → String
  parts_digest parts =
      hex_encode (sha256 (marshal_parts (sort_by (λ a b. ltb_ℤ a.part_number b.part_number) parts)))

  -- A checksum that the storage reports: it is valid, and the declared one where there is one.
  unfoldable pub reported_checksum : ObjectInfo → Checksum → Result ObjectInfo
  reported_checksum object declared =
      if object.checksum.algorithm == "" || not (valid_checksum platform object.checksum)
      then fail_retryable ErrorCode.dependency_unavailable
      else if not (declared.algorithm == "") && not (same_checksum object.checksum declared)
      then fail ErrorCode.invalid_request
      else ok object

  unfoldable pub missing_checksum : ObjectInfo → Checksum → ObjectInfo
  missing_checksum object declared =
      if not (declared.algorithm == "")
      then record object { checksum = declared; checksum_status = Node.declared }
      else record object { checksum = no_checksum; checksum_status = Node.unavailable }

  -- `normalizeObjectChecksum`. The statuses of `ChecksumStatus` are all there are.
  unfoldable pub checksum_by_status : ChecksumStatus → ObjectInfo → Checksum → Result ObjectInfo
  checksum_by_status Node.verified object declared = reported_checksum object declared
  checksum_by_status Node.declared object declared = reported_checksum object declared
  checksum_by_status Node.unavailable object declared = ok (missing_checksum object declared)
  checksum_by_status Node.no_checksum_status object declared = ok (missing_checksum object declared)

  abbrev pub normalize_object_checksum : ObjectInfo → Checksum → Result ObjectInfo
  normalize_object_checksum object = checksum_by_status object.checksum_status object

  module _ {S : Type 0} (provider : StorageProvider S) where
    -- `failUploadCompletion`
    unfoldable pub fail_completion :
        Call → Identity → UploadSession → String → String → Bool → Action S (Unit {0})
    fail_completion call identity session digest failure_code object_exists = do
      on_repository (fail_upload_completion identity session.id digest failure_code (call.now 1))
      released ← attempt (
          on_storage (
            if object_exists
            then provider.delete_object session.object_key
            else provider.abort_multipart session.object_key session.storage_upload_id))
      note_cleanup identity session.id released

    -- The session fails with `failure_code` and the call with `e`.
    unfoldable pub reject_object :
        Call → Identity → UploadSession → String → String → Bool → DriveError → Action S ObjectInfo
    reject_object call identity session digest failure_code object_exists e =
        fail_completion call identity session digest failure_code object_exists >> raise e

    -- The storage has been asked to join the parts, and cannot be seen to have the object.
    unfoldable pub unseen_object :
        Call
        → Identity
        → UploadSession
        → String
        → Result ObjectInfo
        → DriveError
        → Action S ObjectInfo
    unseen_object call identity session digest (ok _) stat_error =
        refuse_retryable ErrorCode.dependency_unavailable
    unseen_object call identity session digest (err complete_error) stat_error =
        let complete : DriveError = map_storage_error complete_error in
        let stat : DriveError = map_storage_error stat_error in
        if is_invalid_request (code_of complete) && is_missing (code_of stat)
        then reject_object call identity session digest upload_failure_storage_rejected false
            complete
        else if is_unavailable (code_of stat)
        then raise stat
        else if is_missing (code_of complete) && is_missing (code_of stat)
        then refuse_retryable ErrorCode.dependency_unavailable
        else if is_unavailable (code_of complete)
        then raise complete
        else refuse_retryable ErrorCode.dependency_unavailable

    unfoldable pub join_parts :
        Call → Identity → UploadSession → String → List CompletedPart → Action S ObjectInfo
    join_parts call identity session digest parts = do
      joined ← attempt (
          on_storage
            (provider.complete_multipart session.object_key session.storage_upload_id parts))
      seen ← attempt (on_storage (provider.stat_object session.object_key))
      elim seen [
        | ok object ↦ pure object
        | err e ↦ unseen_object call identity session digest joined e
      ]

    -- The object as the session declared it: its checksum and its size agree.
    unfoldable pub accept_object :
        Call → Identity → UploadSession → String → ObjectInfo → Action S ObjectInfo
    accept_object call identity session digest object =
        elim (normalize_object_checksum object session.declared_checksum) [
          | err e ↦
              if is_invalid_request (code_of e)
              then reject_object call identity session digest upload_failure_checksum_mismatch true
                  e
              else raise e
          | ok object ↦
              if not (object.size == session.expected_size)
              then reject_object call identity session digest upload_failure_size_mismatch true
                  (record { code = ErrorCode.invalid_request; retryable = false })
              else pure object
        ]
