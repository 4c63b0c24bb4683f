-- ===== src/Service/Uploads.antt =====
-- internal/drive/service.go: the creation of upload sessions.
use Prim.Native.String.{◌++◌ as append}
use asteria_drive.Prelude.{
  ℕ, ◌+◌, String, len, Bool, true, false, Option, none, some, ◌||◌, not, ltb, ◌==◌, string_eq,
  if◌then◌else◌,
}
use asteria_drive.Prelude.Int.{ℤ, pos, leb_ℤ, ltb_ℤ}
use asteria_drive.Result.{DriveError, ok, err, ErrorCode, code_of}
use asteria_drive.Types.Access.{Identity}
use asteria_drive.Types.Node.{Checksum, directory, kind_eq}
use asteria_drive.Types.Upload.{UploadSession, created}
use asteria_drive.Types.Idempotency
use asteria_drive.Types.Idempotency.{
  IdempotencyScope, IdempotencyRequest, IdempotencyRecord, completed, idempotency_state_eq,
}
use asteria_drive.Types.Storage.{StorageProvider}
use asteria_drive.Platform.{Platform}
use asteria_drive.Validation.Names.{normalize_name, valid_checksum, valid_media_type}
use asteria_drive.Memory.Namespace
use asteria_drive.Memory.Upload
use asteria_drive.Service.{
  Call, Action, pure, raise, refuse, lift, reading, on_repository, on_storage, attempt, drawn,
  ignore, ◌>>=◌, ◌>>◌, refuse_if, require_id, map_storage_error, Settings,
}
use asteria_drive.Service.Nodes.{is_live, is_none}
use asteria_drive.Service.Creation.{
  unkeyed, claimed, replay, known_failed_creation, release_known_failed_claim, sha256_hex,
  claim_creation,
}

pub record CreateUploadInput : Type 0 where
  pub parent_id : String
  pub name : String
  pub size : ℤ
  pub mime_type : String
  pub checksum : Checksum

pub record CreateUploadOutput : Type 0 where
  pub upload : UploadSession
  pub replayed : Bool

module _ (platform : Platform) {S : Type 0} (provider : StorageProvider S)
    (settings : Settings) where
  -- The parent of an upload: a visible directory.
  unfoldable pub require_parent : Identity → String → Action S (Unit {0})
  require_parent identity id w = elim (Namespace.node identity id false w.repository) [
    | err _ ↦ refuse ErrorCode.not_found w
    | ok parent ↦ if is_live directory parent then pure tt w else refuse ErrorCode.not_found w
  ]

  unfoldable pub replay_upload : Identity → String → Action S CreateUploadOutput
  replay_upload identity id w = elim (Upload.upload identity id w.repository) [
    | err _ ↦ refuse ErrorCode.internal w
    | ok upload ↦ pure (record { upload = upload; replayed = true }) w
  ]

  -- `Bucket`
  abbrev bucket_of : Action S String
  bucket_of w = (ok (provider.bucket w.storage), w)

  abbrev pub new_session :
      Identity
      → CreateUploadInput
      → String × String
      → String
      → String
      → String
      → String
      → ℕ
      → UploadSession
  new_session identity input names session_id bucket object_key storage_upload_id now = record {
    id = session_id;
    tenant_id = identity.tenant_id;
    principal_id = identity.principal_id;
    parent_id = input.parent_id;
    display_name = names.0;
    normalized_name = names.1;
    expected_size = input.size;
    mime_type = input.mime_type;
    declared_checksum = input.checksum;
    bucket = bucket;
    object_key = object_key;
    storage_upload_id = storage_upload_id;
    status = created;
    completion_digest = "";
    committed_node_id = "";
    failure_code = "";
    part_size = settings.part_size;
    expires_at = now + settings.upload_ttl;
    revision = pos 1;
    created_at = now;
    updated_at = now;
  }

  -- What a refused session leaves: without a claim, or when the creation is known to have failed, the
  -- multipart upload is aborted.
  unfoldable pub undo_multipart :
      Option IdempotencyRequest → String → String → DriveError → Action S (Unit {0})
  undo_multipart claim object_key storage_upload_id e =
      if is_none claim || known_failed_creation (code_of e)
      then ignore (on_storage (provider.abort_multipart object_key storage_upload_id))
        >> release_known_failed_claim claim e
      else pure tt

  unfoldable pub store_upload :
      Call
      → Identity
      → CreateUploadInput
      → String × String
      → String
      → String
      → Option IdempotencyRequest
      → Action S CreateUploadOutput
  store_upload call identity input names session_id blob_id claim = do
    let object_key : String = append "blobs/" (append identity.tenant_id (append "/" blob_id))
    begun ← attempt (
        on_storage
          (provider.create_multipart call.ambient object_key input.mime_type input.checksum))
    storage_upload_id ← elim begun [
      | ok id ↦ pure id
      | err e ↦
          release_known_failed_claim claim (map_storage_error e) >> raise (map_storage_error e)
    ]
    bucket ← bucket_of
    stored ← attempt (
        on_repository (
          Upload.create_upload (record {
            session =
                new_session identity input names session_id bucket object_key storage_upload_id
                  (call.now 1);
            idempotency = claim;
          })))
    elim stored [
      | ok upload ↦ pure (record { upload = upload; replayed = false })
      | err e ↦ undo_multipart claim object_key storage_upload_id e >> raise e
    ]

  unfoldable pub create_upload :
      Call → Identity → CreateUploadInput → String → Action S CreateUploadOutput
  create_upload call identity input key = do
    require_id input.parent_id
    names ← lift (normalize_name platform input.name)
    refuse_if (leb_ℤ input.size (pos 0) || ltb_ℤ settings.max_file_size input.size)
        ErrorCode.invalid_request
    refuse_if
        (input.mime_type == ""
          || ltb 255 (len input.mime_type)
          || not (valid_media_type platform input.mime_type)
          || not (valid_checksum platform input.checksum))
        ErrorCode.invalid_request
    require_parent identity input.parent_id
    session_id ← drawn (call.new_id 0)
    blob_id ← drawn (call.new_id 1)
    let request_digest : String =
        sha256_hex platform (
          platform.marshal_upload input.parent_id names.0 input.size input.mime_type input.checksum)
    claim ←
        claim_creation platform settings call 2 identity Idempotency.create_upload key
          request_digest
    elim claim [
      | replay resource_id ↦ replay_upload identity resource_id
      | unkeyed ↦ store_upload call identity input names session_id blob_id none
      | claimed request ↦ store_upload call identity input names session_id blob_id (some request)
    ]

  -- `CreateUpload`
  unfoldable pub create_upload_plain : Call → Identity → CreateUploadInput → Action S UploadSession
  create_upload_plain call identity input = do
    output ← create_upload call identity input ""
    pure output.upload

  -- `Upload`
  unfoldable pub get_upload : Identity → String → Action S UploadSession
  get_upload identity upload_id = do
    require_id upload_id
    reading (Upload.upload identity upload_id)
