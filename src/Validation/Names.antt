-- ===== src/Validation/Names.antt =====
-- internal/drive/util.go: names, checksums and media types, with the texts of a `Platform`.
use asteria_drive.Prelude.{
  ℕ, String, len, Bool, true, false, none, some, ◌&&◌, ◌||◌, ltb, not, ◌==◌, nat_eq, string_eq, any,
  length, if◌then◌else◌,
}
use asteria_drive.Text.{codes, is_trimmed, is_control, has_char}
use asteria_drive.Result.{Result, ok, fail, ErrorCode}
use asteria_drive.Types.Node.{Checksum}
use asteria_drive.Platform.{Platform}

-- A character that no name has.
abbrev pub bad_name_char : ℕ → Bool
bad_name_char c = c == b'/' || c == b'\\' || c == 0 || is_control c

module _ (platform : Platform) where
  open platform use {nfc, to_lower, parse_media_type, base64_encode, base64_decode}

  -- The name to show and the normalized one. A `String` is valid UTF-8.
  unfoldable pub normalize_name : String → Result (String × String)
  normalize_name input =
      let display = nfc input in
      if display == "" || display == "." || display == ".."
      then fail ErrorCode.invalid_request
      else if not (is_trimmed display) || ltb 255 (len display)
      then fail ErrorCode.invalid_request
      else if any bad_name_char (codes display)
      then fail ErrorCode.invalid_request
      else ok (display, nfc (to_lower display))

  unfoldable pub valid_checksum : Checksum → Bool
  valid_checksum c =
      if c.algorithm == "" && c.value == ""
      then true
      else if not (c.algorithm == "sha256")
      then false
      else elim (base64_decode c.value) [
        | none ↦ false
        | some digest ↦ length digest == 32 && base64_encode digest == c.value
      ]

  unfoldable pub valid_media_type : String → Bool
  valid_media_type value = elim (parse_media_type value) [
    | none ↦ false
    | some media_type ↦ has_char b'/' media_type
  ]
