-- ===== src/Platform.antt =====
-- What the code takes from packages outside the repository: digests (crypto/sha256, crypto/hmac), text forms
-- (golang.org/x/text, strings.ToLower, mime), base64, JSON and URLs. Each is an argument of the model.
use asteria_drive.Prelude.{ℕ, String, Option, List}
use asteria_drive.Prelude.Int.{ℤ}
use asteria_drive.Dict.{Dict}
use asteria_drive.Types.Node.{Checksum}
use asteria_drive.Types.Upload.{CompletedPart}

-- `cursorPayload` of internal/drive/cursor.go
pub record CursorPayload : Type 0 where
  pub version : ℕ
  pub tenant_id : String
  pub scope : String
  pub name : String
  pub id : String

pub record Platform : Type 0 where
  pub sha256 : List ℕ → List ℕ
  pub hmac_sha256 : List ℕ → List ℕ → List ℕ
  pub nfc : String → String
  pub to_lower : String → String
  -- `mime.ParseMediaType`, its first result
  pub parse_media_type : String → Option String
  -- `base64.StdEncoding`, `base64.RawURLEncoding`
  pub base64_encode : List ℕ → String
  pub base64_decode : String → Option (List ℕ)
  pub raw_url_encode : List ℕ → String
  pub raw_url_decode : String → Option (List ℕ)
  -- `json.Marshal` at the structs that the code encodes, and `json.Unmarshal` at the cursor's
  pub marshal_directory : String → String → List ℕ
  pub marshal_upload : String → String → ℤ → String → Checksum → List ℕ
  pub marshal_parts : List CompletedPart → List ℕ
  pub marshal_cursor : CursorPayload → List ℕ
  pub unmarshal_cursor : List ℕ → Option CursorPayload
  -- `fmt.Sprint`, `url.PathEscape`, `url.Values.Encode`, `Time.Format(time.RFC3339)`
  pub print_int : ℤ → String
  pub path_escape : String → String
  pub encode_query : Dict String String → String
  pub format_time : ℕ → String
