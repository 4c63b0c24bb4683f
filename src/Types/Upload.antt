-- ===== src/Types/Upload.antt =====
-- internal/drive/types.go and ports.go: upload sessions, their parts and maintenance claims.
-- `no_status` is the empty string of a zero value.
use asteria_drive.Prelude.{
  ℕ, String, Bool, true, Option, List, ◌||◌, ◌≡◌, ◌↔◌, arith, Eq, ◌==◌, nat_eq,
}
use asteria_drive.Prelude.Int.{ℤ}
use asteria_drive.Types.Access.{Identity}
use asteria_drive.Types.Idempotency.{IdempotencyRequest}
use asteria_drive.Types.Node.{Checksum, Node, Blob, FileVersion}

pub data UploadStatus : Type 0 where
  created uploading completing object_completed committed aborted expired failed no_status :
      UploadStatus

abbrev pub upload_status_tag : UploadStatus → ℕ
upload_status_tag created = 0
upload_status_tag uploading = 1
upload_status_tag completing = 2
upload_status_tag object_completed = 3
upload_status_tag committed = 4
upload_status_tag aborted = 5
upload_status_tag expired = 6
upload_status_tag failed = 7
upload_status_tag no_status = 8

pub upload_status_tag_iff :
    (a b : UploadStatus) → ((upload_status_tag a == upload_status_tag b) ≡ true) ↔ (a ≡ b)
upload_status_tag_iff a b = ground arith

instance abbrev pub upload_status_eq : Eq UploadStatus
upload_status_eq = record {
  beq = λ a b. upload_status_tag a == upload_status_tag b;
  beq_iff = upload_status_tag_iff;
}

abbrev pub max_upload_parts : ℕ
max_upload_parts = 10000

abbrev pub upload_failure_storage_rejected : String
upload_failure_storage_rejected = "storage_rejected"

abbrev pub upload_failure_size_mismatch : String
upload_failure_size_mismatch = "size_mismatch"

abbrev pub upload_failure_checksum_mismatch : String
upload_failure_checksum_mismatch = "checksum_mismatch"

abbrev pub upload_failure_parent_unavailable : String
upload_failure_parent_unavailable = "parent_unavailable"

abbrev pub upload_failure_name_conflict : String
upload_failure_name_conflict = "name_conflict"

unfoldable pub is_terminal : UploadStatus → Bool
is_terminal s = s == committed || s == aborted || s == expired || s == failed

pub record UploadSession : Type 0 where
  pub id : String
  pub tenant_id : String
  pub principal_id : String
  pub parent_id : String
  pub display_name : String
  pub normalized_name : String
  pub expected_size : ℤ
  pub mime_type : String
  pub declared_checksum : Checksum
  pub bucket : String
  pub object_key : String
  pub storage_upload_id : String
  pub status : UploadStatus
  pub completion_digest : String
  pub committed_node_id : String
  pub failure_code : String
  pub part_size : ℤ
  pub expires_at : ℕ
  pub revision : ℤ
  pub created_at : ℕ
  pub updated_at : ℕ

pub record CompletedPart : Type 0 where
  pub part_number : ℤ
  pub etag : String
  pub checksum : Checksum
  pub size : ℤ

pub record PartSignature : Type 0 where
  pub part_number : ℤ
  pub size : ℤ
  pub sha256 : String

pub record CompleteResult : Type 0 where
  pub upload : UploadSession
  pub node : Node
  pub blob : Blob
  pub version : FileVersion

pub record CreateUploadCommand : Type 0 where
  pub session : UploadSession
  pub idempotency : Option IdempotencyRequest

pub record CommitUploadCommand : Type 0 where
  pub identity : Identity
  pub session_id : String
  pub digest : String
  pub blob : Blob
  pub version : FileVersion
  pub node : Node
  pub parts : List CompletedPart
  pub now : ℕ

pub record UploadMaintenanceClaim : Type 0 where
  pub upload : UploadSession
  pub owner : String
  pub cleanup_pending : Bool
  pub attempts : ℤ

pub record RecycleMaintenanceClaim : Type 0 where
  pub identity : Identity
  pub root_id : String
  pub revision : ℤ
  pub owner : String
