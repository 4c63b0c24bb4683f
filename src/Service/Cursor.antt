-- ===== src/Service/Cursor.antt =====
-- internal/drive/cursor.go: the signed cursors of lists.
pub mod Laws
use Prim.Native.String.{◌++◌ as append}
use asteria_drive.Prelude.{
  ℕ, String, Bool, true, false, none, some, List, ◌&&◌, ◌||◌, not, ltb, ◌==◌, nat_eq, string_eq,
  length, if◌then◌else◌,
}
use asteria_drive.Text.{cut_dot}
use asteria_drive.Result.{Result, ok, fail, ErrorCode}
use asteria_drive.Types.Node.{CursorPosition}
use asteria_drive.Platform.{Platform, CursorPayload}

-- `CursorPosition{}`
abbrev pub start : CursorPosition
start = record { name = ""; id = "" }

-- The codec's key.
unfoldable pub new_cursor_codec : List ℕ → Result (List ℕ)
new_cursor_codec key = if ltb (length key) 32 then fail ErrorCode.invalid_request else ok key

-- `hmac.Equal`
unfoldable pub same_bytes : List ℕ → List ℕ → Bool
same_bytes List.[] List.[] = true
same_bytes (List.◌∷◌ x xs) (List.◌∷◌ y ys) = x == y && same_bytes xs ys
same_bytes _ _ = false

module _ (platform : Platform) where
  open platform use {hmac_sha256, raw_url_encode, raw_url_decode, marshal_cursor, unmarshal_cursor}

  abbrev pub payload_of : String → String → CursorPosition → CursorPayload
  payload_of tenant_id scope position = record {
    version = 1;
    tenant_id = tenant_id;
    scope = scope;
    name = position.name;
    id = position.id;
  }

  unfoldable pub encode : List ℕ → String → String → CursorPosition → String
  encode key tenant_id scope position =
      let payload = marshal_cursor (payload_of tenant_id scope position) in
      append (raw_url_encode payload) (append "." (raw_url_encode (hmac_sha256 key payload)))

  -- The position of a payload whose signature holds.
  unfoldable pub read_payload : String → String → List ℕ → Result CursorPosition
  read_payload tenant_id scope payload = elim (unmarshal_cursor payload) [
    | none ↦ fail ErrorCode.invalid_cursor
    | some decoded ↦
        if not (decoded.version == 1)
          || not (decoded.tenant_id == tenant_id)
          || not (decoded.scope == scope)
          || decoded.id == ""
        then fail ErrorCode.invalid_cursor
        else ok (record { name = decoded.name; id = decoded.id })
  ]

  -- Both parts of the cursor are there.
  unfoldable pub decode_parts : List ℕ → String → String → String → String → Result CursorPosition
  decode_parts key tenant_id scope payload_part signature_part =
      elim (raw_url_decode payload_part) [
        | none ↦ fail ErrorCode.invalid_cursor
        | some payload ↦ elim (raw_url_decode signature_part) [
          | none ↦ fail ErrorCode.invalid_cursor
          | some signature ↦
              if not (same_bytes signature (hmac_sha256 key payload))
              then fail ErrorCode.invalid_cursor
              else read_payload tenant_id scope payload
        ]
      ]

  unfoldable pub decode : List ℕ → String → String → String → Result CursorPosition
  decode key value tenant_id scope = if value == "" then ok start else elim (cut_dot value) [
    | none ↦ fail ErrorCode.invalid_cursor
    | some (payload_part, signature_part) ↦
        if payload_part == "" || signature_part == ""
        then fail ErrorCode.invalid_cursor
        else decode_parts key tenant_id scope payload_part signature_part
  ]
