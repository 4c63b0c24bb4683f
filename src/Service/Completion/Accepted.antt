-- ===== src/Service/Completion/Accepted.antt =====
-- internal/drive/service.go: what `CompleteUpload` knows of an object that it goes on with.
use mathlib.Core.Path.{subst}
use asteria_drive.Prelude.{
  String, Bool, true, false, ◌≡◌, ◌≢◌, inl, inr, refl, sym, arith, string_eq, str_beq_iff,
}
use asteria_drive.Prelude.Int.{int_eq, int_beq_iff}
use asteria_drive.Result.{DriveError, ok, err, ErrorCode}
use asteria_drive.Types.Access.{Identity}
use asteria_drive.Types.Node
use asteria_drive.Types.Node.{Checksum, ChecksumStatus}
use asteria_drive.Types.Upload.{
  UploadSession, upload_failure_size_mismatch, upload_failure_checksum_mismatch,
}
use asteria_drive.Types.Storage.{ObjectInfo, StorageProvider}
use asteria_drive.Platform.{Platform}
use asteria_drive.Service.{Call, World}
use asteria_drive.Service.Steps.{Result-cases, >>-raise_fails}
use asteria_drive.Service.Completion.{
  reported_checksum, missing_checksum, checksum_by_status, normalize_object_checksum, accept_object,
  fail_completion, reject_object,
}

-- The storage reports a checksum of its own.
unfoldable pub is_reported : ChecksumStatus → Bool
is_reported Node.verified = true
is_reported Node.declared = true
is_reported Node.unavailable = false
is_reported Node.no_checksum_status = false

-- An object is the one that the storage has found, and has the declared checksum where there is one; a
-- checksum that the storage reports is not replaced.
pub record IsDeclared (declared : Checksum) (found object : ObjectInfo) : Type 0 where
  pub key_kept : object.object_key ≡ found.object_key
  pub bucket_kept : object.bucket ≡ found.bucket
  pub size_kept : object.size ≡ found.size
  pub checksum_agrees : declared.algorithm ≢ "" → object.checksum ≡ declared
  pub reported_kept : is_reported found.checksum_status ≡ true → object ≡ found

module _ (platform : Platform) where
  reported_checksum-IsDeclared :
      (found object : ObjectInfo) (declared : Checksum)
      → reported_checksum platform found declared ≡ ok object
      → IsDeclared declared found object
  unfolding reported_checksum
  reported_checksum-IsDeclared found object declared h = ground (
    arith,
    str_beq_iff declared.algorithm "",
    str_beq_iff found.checksum.algorithm declared.algorithm,
    str_beq_iff found.checksum.value declared.value,
  )

  missing_checksum-IsDeclared :
      (found : ObjectInfo) (declared : Checksum)
      → is_reported found.checksum_status ≡ false
      → IsDeclared declared found (missing_checksum platform found declared)
  unfolding missing_checksum
  missing_checksum-IsDeclared found declared unreported =
      ground (arith, str_beq_iff declared.algorithm "")

  checksum_by_status-IsDeclared :
      (reported : ChecksumStatus) (found object : ObjectInfo) (declared : Checksum)
      → found.checksum_status ≡ reported
      → checksum_by_status platform reported found declared ≡ ok object
      → IsDeclared declared found object
  unfolding checksum_by_status is_reported
  checksum_by_status-IsDeclared Node.verified found object declared at h =
      reported_checksum-IsDeclared found object declared h
  checksum_by_status-IsDeclared Node.declared found object declared at h =
      reported_checksum-IsDeclared found object declared h
  checksum_by_status-IsDeclared Node.unavailable found object declared at h =
      subst (IsDeclared declared found) (ground (arith, h))
        (missing_checksum-IsDeclared found declared (rw at refl))
  checksum_by_status-IsDeclared Node.no_checksum_status found object declared at h =
      subst (IsDeclared declared found) (ground (arith, h))
        (missing_checksum-IsDeclared found declared (rw at refl))

  module _ {S : Type 0} (provider : StorageProvider S) (call : Call) (identity : Identity)
      (session : UploadSession) (digest : String) where
    reject_object_fails :
        (failure_code : String) (object_exists : Bool) (e : DriveError) (w : World S)
        (object : ObjectInfo)
        → (reject_object platform provider call identity session digest failure_code object_exists e
            w).0
          ≢ ok object
    unfolding reject_object
    reject_object_fails failure_code object_exists e w object h =
        >>-raise_fails
          (fail_completion platform provider call identity session digest failure_code
            object_exists)
          e w object h

    accept_size :
        (found known object : ObjectInfo) (w : World S)
        → normalize_object_checksum platform found session.declared_checksum ≡ ok known
        → (accept_object platform provider call identity session digest found w).0 ≡ ok object
        → (object ≡ known)
          × (known.size ≡ session.expected_size)
          × ((accept_object platform provider call identity session digest found w).1 ≡ w)
    unfolding accept_object
    accept_size found known object w e h = ground (
      arith,
      e,
      h,
      int_beq_iff known.size session.expected_size,
      reject_object_fails upload_failure_size_mismatch true
          (record { code = ErrorCode.invalid_request; retryable = false }) w object,
    )

    accept_checksum :
        (found object : ObjectInfo) (w : World S) (e : DriveError)
        → normalize_object_checksum platform found session.declared_checksum ≡ err e
        → (accept_object platform provider call identity session digest found w).0 ≢ ok object
    unfolding accept_object
    accept_checksum found object w e failed h =
        ground
          (arith, failed, h, reject_object_fails upload_failure_checksum_mismatch true e w object)

    -- The object that is gone on with
    pub accept_object-IsDeclared :
        (found object : ObjectInfo) (w : World S)
        → (accept_object platform provider call identity session digest found w).0 ≡ ok object
        → IsDeclared session.declared_checksum found object
          × (object.size ≡ session.expected_size)
          × ((accept_object platform provider call identity session digest found w).1 ≡ w)
    accept_object-IsDeclared found object w h =
        elim (Result-cases (normalize_object_checksum platform found session.declared_checksum)) [
          | inl (known, e) ↦
              let (same, size, still) = accept_size found known object w e h in
              (
                subst (IsDeclared session.declared_checksum found) (sym same) (
                    checksum_by_status-IsDeclared found.checksum_status found known
                      session.declared_checksum refl e),
                cc (same, size),
                still,
              )
          | inr (e, failed) ↦ absurd (accept_checksum found object w e failed h)
        ]
