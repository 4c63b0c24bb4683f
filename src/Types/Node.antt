-- ===== src/Types/Node.antt =====
-- internal/drive/types.go and ports.go: nodes, blobs, versions and their commands. The last constructor
-- of a type of constants stands for the empty string of a zero value.
use asteria_drive.Prelude.{ℕ, String, true, Option, none, List, ◌≡◌, ◌↔◌, arith, Eq, ◌==◌, nat_eq}
use asteria_drive.Prelude.Int.{ℤ, pos, int_eq}
use asteria_drive.Types.Access.{Identity}
use asteria_drive.Types.Idempotency.{IdempotencyRequest}

pub data NodeKind : Type 0 where
  directory file no_kind : NodeKind

abbrev pub kind_tag : NodeKind → ℕ
kind_tag directory = 0
kind_tag file = 1
kind_tag no_kind = 2

pub kind_tag_iff : (a b : NodeKind) → ((kind_tag a == kind_tag b) ≡ true) ↔ (a ≡ b)
kind_tag_iff a b = ground arith

instance abbrev pub kind_eq : Eq NodeKind
kind_eq = record { beq = λ a b. kind_tag a == kind_tag b; beq_iff = kind_tag_iff }

abbrev pub kind_text : NodeKind → String
kind_text directory = "directory"
kind_text file = "file"
kind_text no_kind = ""

pub data NodeStatus : Type 0 where
  active trashed purging no_status : NodeStatus

abbrev pub node_status_tag : NodeStatus → ℕ
node_status_tag active = 0
node_status_tag trashed = 1
node_status_tag purging = 2
node_status_tag no_status = 3

pub node_status_tag_iff :
    (a b : NodeStatus) → ((node_status_tag a == node_status_tag b) ≡ true) ↔ (a ≡ b)
node_status_tag_iff a b = ground arith

instance abbrev pub node_status_eq : Eq NodeStatus
node_status_eq = record {
  beq = λ a b. node_status_tag a == node_status_tag b;
  beq_iff = node_status_tag_iff;
}

pub record Node : Type 0 where
  pub id : String
  pub tenant_id : String
  pub parent_id : String
  pub kind : NodeKind
  pub display_name : String
  pub normalized_name : String
  pub current_version_id : String
  pub size : ℤ
  pub mime_type : String
  pub status : NodeStatus
  pub trashed_root_id : String
  pub original_parent_id : String
  pub revision : ℤ
  pub created_at : ℕ
  pub updated_at : ℕ
  pub deleted_at : Option ℕ

-- `Node{}`
abbrev pub no_node : Node
no_node = record {
  id = "";
  tenant_id = "";
  parent_id = "";
  kind = no_kind;
  display_name = "";
  normalized_name = "";
  current_version_id = "";
  size = pos 0;
  mime_type = "";
  status = no_status;
  trashed_root_id = "";
  original_parent_id = "";
  revision = pos 0;
  created_at = 0;
  updated_at = 0;
  deleted_at = none;
}

pub record Checksum : Type 0 where
  pub algorithm : String
  pub value : String

-- `Checksum{}`
abbrev pub no_checksum : Checksum
no_checksum = record { algorithm = ""; value = "" }

pub data ChecksumStatus : Type 0 where
  verified declared unavailable no_checksum_status : ChecksumStatus

abbrev pub checksum_status_tag : ChecksumStatus → ℕ
checksum_status_tag verified = 0
checksum_status_tag declared = 1
checksum_status_tag unavailable = 2
checksum_status_tag no_checksum_status = 3

pub checksum_status_tag_iff :
    (a b : ChecksumStatus) → ((checksum_status_tag a == checksum_status_tag b) ≡ true) ↔ (a ≡ b)
checksum_status_tag_iff a b = ground arith

instance abbrev pub checksum_status_eq : Eq ChecksumStatus
checksum_status_eq = record {
  beq = λ a b. checksum_status_tag a == checksum_status_tag b;
  beq_iff = checksum_status_tag_iff;
}

pub data BlobStatus : Type 0 where
  available pending_delete deleted no_blob_status : BlobStatus

abbrev pub blob_status_tag : BlobStatus → ℕ
blob_status_tag available = 0
blob_status_tag pending_delete = 1
blob_status_tag deleted = 2
blob_status_tag no_blob_status = 3

pub blob_status_tag_iff :
    (a b : BlobStatus) → ((blob_status_tag a == blob_status_tag b) ≡ true) ↔ (a ≡ b)
blob_status_tag_iff a b = ground arith

instance abbrev pub blob_status_eq : Eq BlobStatus
blob_status_eq = record {
  beq = λ a b. blob_status_tag a == blob_status_tag b;
  beq_iff = blob_status_tag_iff;
}

pub record Blob : Type 0 where
  pub id : String
  pub tenant_id : String
  pub bucket : String
  pub object_key : String
  pub size : ℤ
  pub mime_type : String
  pub checksum : Checksum
  pub checksum_status : ChecksumStatus
  pub status : BlobStatus
  pub reference_count : ℤ
  pub created_at : ℕ
  pub deleted_at : Option ℕ

-- `Blob{}`
abbrev pub no_blob : Blob
no_blob = record {
  id = "";
  tenant_id = "";
  bucket = "";
  object_key = "";
  size = pos 0;
  mime_type = "";
  checksum = no_checksum;
  checksum_status = no_checksum_status;
  status = no_blob_status;
  reference_count = pos 0;
  created_at = 0;
  deleted_at = none;
}

pub record FileVersion : Type 0 where
  pub id : String
  pub tenant_id : String
  pub node_id : String
  pub blob_id : String
  pub size : ℤ
  pub mime_type : String
  pub checksum : Checksum
  pub created_by : String
  pub created_at : ℕ

-- `FileVersion{}`
abbrev pub no_version : FileVersion
no_version = record {
  id = "";
  tenant_id = "";
  node_id = "";
  blob_id = "";
  size = pos 0;
  mime_type = "";
  checksum = no_checksum;
  created_by = "";
  created_at = 0;
}

pub record CursorPosition : Type 0 where
  pub name : String
  pub id : String

pub record RecycleEntry : Type 0 where
  pub node : Node
  pub original_parent_id : String
  pub deleted_at : ℕ

pub record PurgePlan : Type 0 where
  pub root_id : String
  pub blobs : List Blob

pub record CreateDirectoryCommand : Type 0 where
  pub identity : Identity
  pub id : String
  pub parent_id : String
  pub display_name : String
  pub normalized_name : String
  pub now : ℕ
  pub idempotency : Option IdempotencyRequest

pub record UpdateNodeCommand : Type 0 where
  pub identity : Identity
  pub node_id : String
  pub display_name : Option String
  pub normalized_name : Option String
  pub parent_id : Option String
  pub expected_revision : ℤ
  pub now : ℕ
