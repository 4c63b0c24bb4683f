-- ===== src/Service/Parts.antt =====
-- internal/drive/service.go: the parts of an upload: their sizes, their links and the list that a client
-- resumes from.
pub mod Sizes
use asteria_drive.Prelude.{
  ℕ, String, len, Bool, true, false, List, [], ◌∷◌, ◌++◌, ◌&&◌, ◌||◌, not, ltb, ◌==◌, nat_eq,
  string_eq, length, leb, map, sort_by, truncate, if◌then◌else◌,
}
use asteria_drive.Prelude.Int.{ℤ, pos, int_eq, leb_ℤ, ltb_ℤ, sub64, mul64}
use asteria_drive.Dict.{Dict, empty, get_or, put}
use asteria_drive.Result.{Result, ok, err, fail, ErrorCode, code_of}
use asteria_drive.Types.Access.{Identity}
use asteria_drive.Types.Node.{Checksum, no_checksum}
use asteria_drive.Types.Upload.{
  UploadSession, UploadStatus, upload_status_eq, created, uploading, expired, is_terminal,
  max_upload_parts, CompletedPart,
}
use asteria_drive.Types.Storage.{StoredPart, UploadPartListing, SignedPart, StorageProvider}
use asteria_drive.Platform.{Platform}
use asteria_drive.Validation.Names.{valid_checksum}
use asteria_drive.Memory.Upload
use asteria_drive.Memory.Upload.{abort_upload, mark_uploading}
use asteria_drive.Memory.Upload.Parts.{upload_parts, record_part_signature}
use asteria_drive.Service.{
  Call, Action, pure, raise, refuse, reading, on_repository, on_storage, attempt, storage_step,
  ◌>>=◌, ◌>>◌, is_missing, refuse_if, require_id, map_storage_error, Settings,
}

-- `signedPartSize`, on 64-bit integers.
unfoldable pub signed_part_size : UploadSession → ℤ → ℤ
signed_part_size session part_number =
    let remaining =
      sub64 session.expected_size (mul64 (sub64 part_number (pos 1)) session.part_size) in
    if ltb_ℤ session.part_size remaining
    then session.part_size
    else if ltb_ℤ remaining (pos 0)
    then pos 0
    else remaining

-- `byPart` of `reusableStoredParts`: the usable entries, by part number.
unfoldable pub by_part : List StoredPart → Dict ℤ (List StoredPart)
by_part [] = empty
by_part (part ∷ rest) =
    let grouped = by_part rest in
    if ltb_ℤ part.part_number (pos 1)
      || ltb_ℤ (pos max_upload_parts) part.part_number
      || part.etag == ""
    then grouped
    else put grouped part.part_number (part ∷ get_or [] grouped part.part_number)

abbrev pub by_number : List StoredPart → List StoredPart
by_number = sort_by (λ a b. ltb_ℤ a.part_number b.part_number)

-- `abortMultipart`
unfoldable pub abort_multipart :
    {S : Type 0} → StorageProvider S → UploadSession → Action S (Unit {0})
abort_multipart provider session =
    storage_step (provider.abort_multipart session.object_key session.storage_upload_id)

module _ (platform : Platform) where
  -- Whether the only entry of a part number can stand for the part of this session.
  unfoldable pub is_reusable : UploadSession → ℤ → StoredPart → Bool
  is_reusable session part_number part =
      part.size == signed_part_size session part_number
      && part.checksum_attested
      && part.storage_checksum.algorithm == "sha256"
      && valid_checksum platform part.storage_checksum

  -- The entry of one part number. The loop's candidates are never empty.
  unfoldable pub judged : UploadSession → ℤ × List StoredPart → List StoredPart
  judged session (part_number, []) = []
  judged session (part_number, part ∷ others) =
      record part { reusable = length (part ∷ others) == 1 && is_reusable session part_number part }
      ∷ []

  unfoldable pub judge_all : UploadSession → Dict ℤ (List StoredPart) → List StoredPart
  judge_all session [] = []
  judge_all session (e ∷ m) = judged session e ++ judge_all session m

  unfoldable pub reusable_stored_parts : List StoredPart → UploadSession → List StoredPart
  reusable_stored_parts stored session = by_number (judge_all session (by_part stored))

  -- The loop of `validateParts`, behind the part number `previous`.
  unfoldable pub parts_ordered : ℤ → List CompletedPart → Bool
  parts_ordered previous [] = true
  parts_ordered previous (part ∷ parts) =
      let rest = parts_ordered part.part_number parts in
      if leb_ℤ part.part_number previous
        || ltb_ℤ (pos 10000) part.part_number
        || part.etag == ""
        || ltb 1024 (len part.etag)
        || not (valid_checksum platform part.checksum)
      then false
      else rest

  unfoldable pub validate_parts : List CompletedPart → Result (Unit {0})
  validate_parts parts =
      if length parts == 0 || ltb 10000 (length parts)
      then fail ErrorCode.invalid_request
      else if parts_ordered (pos 0) parts
      then ok tt
      else fail ErrorCode.invalid_request

  module _ {S : Type 0} (provider : StorageProvider S) (settings : Settings) where
    -- A session that has run out is ended, and its multipart upload aborted.
    unfoldable pub end_session : Call → Identity → String → UploadSession → Action S SignedPart
    end_session call identity upload_id session = do
      on_repository (abort_upload identity upload_id expired (call.now 1))
      abort_multipart provider session
      refuse ErrorCode.invalid_state

    -- The link, and the note of what the client has promised where the storage binds the checksum.
    unfoldable pub sign_in_session :
        Call → Identity → String → ℤ → Checksum → UploadSession → Action S SignedPart
    sign_in_session call identity upload_id part_number checksum session = do
      session ←
          if session.status == created
          then on_repository (mark_uploading identity upload_id (call.now 1))
          else pure session
      signed ← storage_step (
          provider.sign_part call.ambient session.object_key session.storage_upload_id part_number
            checksum settings.upload_sign_ttl)
      if signed.1
          then on_repository (
              record_part_signature
                (λ digest.
                  valid_checksum platform (record { algorithm = "sha256"; value = digest }))
                identity upload_id
                (record {
                  part_number = part_number;
                  size = signed_part_size session part_number;
                  sha256 = checksum.value;
                }))
          else pure tt
      pure signed.0

    unfoldable pub sign_upload_part : Call → Identity → String → ℤ → Checksum → Action S SignedPart
    sign_upload_part call identity upload_id part_number checksum = do
      require_id upload_id
      refuse_if
          (ltb_ℤ part_number (pos 1)
            || ltb_ℤ (pos 10000) part_number
            || not (valid_checksum platform checksum))
          ErrorCode.invalid_request
      session ← reading (Upload.upload identity upload_id)
      if not (ltb (call.now 0) session.expires_at)
          then end_session call identity upload_id session
          else if not (session.status == created) && not (session.status == uploading)
          then refuse ErrorCode.invalid_state
          else sign_in_session call identity upload_id part_number checksum session

    abbrev frozen_part : CompletedPart → StoredPart
    frozen_part part = record {
      part_number = part.part_number;
      etag = part.etag;
      size = part.size;
      storage_checksum = no_checksum;
      checksum_attested = false;
      reusable = false;
    }

    abbrev listing_of :
        String → UploadStatus → UploadSession → List StoredPart → Bool → UploadPartListing
    listing_of upload_id shown session parts complete = record {
      upload_id = upload_id;
      status = shown;
      part_size = session.part_size;
      parts = parts;
      complete = complete;
    }

    -- The bound of a list; the handler passes a limit from 0 to 10000.
    unfoldable pub part_limit : ℕ → ℕ
    part_limit limit = if limit == 0 || ltb max_upload_parts limit then max_upload_parts else limit

    unfoldable pub stored_listing : String → ℕ → UploadSession → Action S UploadPartListing
    stored_listing upload_id limit session = do
      answer ←
          attempt (on_storage (provider.list_parts session.object_key session.storage_upload_id))
      elim answer [
        | err e ↦
            if is_missing (code_of e)
            then refuse ErrorCode.invalid_state
            else raise (map_storage_error e)
        | ok stored ↦
            let parts : List StoredPart = by_number (reusable_stored_parts stored session) in
            pure (
              listing_of upload_id session.status session (truncate limit parts)
                (leb (length parts) limit))
      ]

    unfoldable pub list_upload_parts : Call → Identity → String → ℕ → Action S UploadPartListing
    list_upload_parts call identity upload_id limit = do
      require_id upload_id
      session ← reading (Upload.upload identity upload_id)
      if not (ltb (call.now 0) session.expires_at) && not (is_terminal session.status)
          then pure (listing_of upload_id expired session [] true)
          else do
            recorded ← reading (upload_parts identity upload_id)
            if not (length recorded == 0)
                then pure
                    (listing_of upload_id session.status session (map frozen_part recorded) true)
                else if is_terminal session.status
                then pure (listing_of upload_id session.status session [] false)
                else stored_listing upload_id (part_limit limit) session
