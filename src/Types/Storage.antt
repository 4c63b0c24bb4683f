-- ===== src/Types/Storage.antt =====
-- internal/drive/types.go and ports.go: objects, stored parts and signed links, and the port of an object
-- storage. What the port's operations find and change is a state `S` of the provider.
use asteria_drive.Prelude.{ℕ, String, Bool, Option, List}
use asteria_drive.Prelude.Int.{ℤ, pos}
use asteria_drive.Dict.{Dict}
use asteria_drive.Result.{DriveError, Result}
use asteria_drive.Types.Node.{Checksum, ChecksumStatus, no_checksum, no_checksum_status}
use asteria_drive.Types.Upload.{UploadStatus, CompletedPart}

pub record StoredPart : Type 0 where
  pub part_number : ℤ
  pub etag : String
  pub size : ℤ
  pub storage_checksum : Checksum
  pub checksum_attested : Bool
  pub reusable : Bool

pub record UploadPartListing : Type 0 where
  pub upload_id : String
  pub status : UploadStatus
  pub part_size : ℤ
  pub parts : List StoredPart
  pub complete : Bool

pub record ObjectInfo : Type 0 where
  pub bucket : String
  pub object_key : String
  pub size : ℤ
  pub etag : String
  pub checksum : Checksum
  pub checksum_status : ChecksumStatus

-- `ObjectInfo{}`
abbrev pub no_object : ObjectInfo
no_object = record {
  bucket = "";
  object_key = "";
  size = pos 0;
  etag = "";
  checksum = no_checksum;
  checksum_status = no_checksum_status;
}

pub record Page (A : Type 0) : Type 0 where
  pub items : List A
  pub next_cursor : String

pub record SignedPart : Type 0 where
  pub part_number : ℤ
  pub method : String
  pub url : String
  pub required_headers : Dict String String
  pub expires_at : ℕ

pub record SignedDownload : Type 0 where
  pub method : String
  pub url : String
  pub expires_at : ℕ

-- What a provider draws from outside in one call: an identifier of `NewID`, `none` when the random source
-- fails, and `time.Now`.
pub record Ambient : Type 0 where
  pub new_id : Option String
  pub wall_clock : ℕ

-- `StorageProvider`
pub record StorageProvider (S : Type 0) : Type 0 where
  pub storage_ready : S → Option DriveError
  pub bucket : S → String
  pub create_multipart : Ambient → String → String → Checksum → S → Result String × S
  pub sign_part : Ambient → String → String → ℤ → Checksum → ℕ → S → Result (SignedPart × Bool) × S
  pub complete_multipart : String → String → List CompletedPart → S → Result ObjectInfo × S
  pub abort_multipart : String → String → S → Result (Unit {0}) × S
  pub list_parts : String → String → S → Result (List StoredPart) × S
  pub stat_object : String → S → Result ObjectInfo × S
  pub sign_download : Ambient → String → String → ℕ → S → Result SignedDownload × S
  pub delete_object : String → S → Result (Unit {0}) × S
