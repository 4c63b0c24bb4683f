-- ===== src/Examples/Toy.antt =====
-- A platform whose texts stand for what the real ones compute, and a storage provider with fixed answers.
use asteria_drive.Prelude.{
  ℕ, String, some, none, List, [], ◌∷◌, ◌++◌, take, ◌==◌, string_eq, if◌then◌else◌,
}
use asteria_drive.Prelude.Int.{pos}
use asteria_drive.Result.{ok, fail, ErrorCode}
use asteria_drive.Types.Node.{no_checksum, no_checksum_status}
use asteria_drive.Types.Storage.{ObjectInfo, StorageProvider}
use asteria_drive.Platform.{Platform}

-- Thirty-two bytes: those of the content, and zeros behind them.
abbrev zeros : List ℕ
zeros = 0 ∷ 0 ∷ 0 ∷ 0 ∷ 0 ∷ 0 ∷ 0 ∷ 0 ∷ 0 ∷ 0 ∷ 0 ∷ 0 ∷ 0 ∷ 0 ∷ 0 ∷ 0 ∷ []

abbrev encode_bytes : List ℕ → String
encode_bytes [] = "payload"
encode_bytes (b ∷ bs) = "signature"

abbrev pub platform : Platform
platform = record {
  sha256 = λ content. take 32 (content ++ zeros ++ zeros);
  hmac_sha256 = λ key content. 1 ∷ [];
  nfc = λ s. s;
  to_lower = λ s. s;
  parse_media_type = λ s. some s;
  base64_encode = λ content. "digest";
  base64_decode = λ s. none;
  raw_url_encode = encode_bytes;
  raw_url_decode = λ s. if s == "payload" then some [] else some (1 ∷ []);
  marshal_directory = λ parent_id name. 1 ∷ [];
  marshal_upload = λ parent_id name size mime_type checksum. [];
  marshal_parts = λ parts. [];
  marshal_cursor = λ payload. [];
  unmarshal_cursor = λ content.
      some (record { version = 1; tenant_id = "tenant"; scope = "members"; name = "b"; id = "b" });
  print_int = λ n. "1";
  path_escape = λ s. s;
  encode_query = λ q. "";
  format_time = λ t. "";
}

abbrev pub found : ObjectInfo
found = record {
  bucket = "bucket";
  object_key = "object";
  size = pos 5;
  etag = "tag";
  checksum = no_checksum;
  checksum_status = no_checksum_status;
}

-- A storage that joins all parts to the object above, and has nothing left to delete.
abbrev pub provider : StorageProvider (Unit {0})
provider = record {
  storage_ready = λ s. none;
  bucket = λ s. "bucket";
  create_multipart = λ ambient key mime_type checksum s. (ok "multipart", s);
  sign_part = λ ambient key id part_number checksum ttl s. (fail ErrorCode.internal, s);
  complete_multipart = λ key id parts s. (ok found, s);
  abort_multipart = λ key id s. (ok tt, s);
  list_parts = λ key id s. (ok [], s);
  stat_object = λ key s. (ok found, s);
  sign_download = λ ambient key filename ttl s. (fail ErrorCode.internal, s);
  delete_object = λ key s. (fail ErrorCode.not_found, s);
}
