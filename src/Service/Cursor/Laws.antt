-- ===== src/Service/Cursor/Laws.antt =====
-- internal/drive/cursor.go: a cursor that the codec has signed reads back as the position it was made from.
use Prim.Native.String.{◌++◌ as append}
use Prim.Native.Char.{Char}
use text.Mathlib.TextLemmas.{nil-append, cons-append}
use asteria_drive.Prelude.{
  ℕ, String, Bool, true, false, some, List, [], ◌∷◌, ◌≡◌, ◌≢◌, refl, arith, ◌==◌, nat_eq, string_eq,
  if◌then◌else◌, ◌&&◌, str_beq_iff, Bool-cases, inl, inr, ap, str_beq,
}
use asteria_drive.Text.{cut_dot, has_char}
use asteria_drive.Result.{ok, fail, ErrorCode}
use asteria_drive.Types.Node.{CursorPosition}
use asteria_drive.Platform.{Platform}
use asteria_drive.Service.Cursor.{
  same_bytes, payload_of, encode, read_payload, decode_parts, decode,
}

has_char_tail :
    (t : ℕ) (c : Char) (a : String) → has_char t (String.◌∷◌ c a) ≡ false → has_char t a ≡ false
unfolding has_char
has_char_tail t c a h = ground (arith, h)

-- A text without a dot ends at the first dot behind it.
cut_dot-append :
    (a b : String) → has_char b'.' a ≡ false → cut_dot (append a (append "." b)) ≡ some (a, b)
unfolding cut_dot has_char
cut_dot-append String.[] b h = rw (nil-append, cons-append, nil-append)
cut_dot-append (String.◌∷◌ c a) b h =
    let rest = cut_dot-append a b (has_char_tail b'.' c a h) in
    rw cons-append (ground (arith, rest, h))

is_nil : String → Bool
is_nil String.[] = true
is_nil (String.◌∷◌ c s) = false

cons_ne : (c : Char) (s : String) → str_beq (String.◌∷◌ c s) "" ≡ false
unfolding is_nil
cons_ne c s = elim (Bool-cases (str_beq (String.◌∷◌ c s) "")) [
  | inl same ↦ ground (arith, ap is_nil ((str_beq_iff (String.◌∷◌ c s) "").0 same))
  | inr differ ↦ differ
]

-- A text with something before its dot is not empty.
append_ne : (a b : String) → a ≢ "" → str_beq (append a b) "" ≡ false
unfolding str_beq
append_ne String.[] b h = ground (arith, h)
append_ne (String.◌∷◌ c a) b h = rw cons-append (cons_ne c (append a b))

same_bytes_self : (xs : List ℕ) → same_bytes xs xs ≡ true
unfolding same_bytes
same_bytes_self [] = refl
same_bytes_self (x ∷ xs) = let rest = same_bytes_self xs in ground (arith, rest)

module _ (platform : Platform) (key : List ℕ) (tenant_id scope : String)
    (position : CursorPosition) where
  open platform use {hmac_sha256, raw_url_encode, raw_url_decode, marshal_cursor, unmarshal_cursor}

  abbrev payload : List ℕ
  payload = marshal_cursor (payload_of platform tenant_id scope position)

  abbrev signature : List ℕ
  signature = hmac_sha256 key payload

  read_payload_lem :
      (asked_tenant asked_scope : String)
      → unmarshal_cursor payload ≡ some (payload_of platform tenant_id scope position)
      → position.id ≢ ""
      → read_payload platform asked_tenant asked_scope payload ≡ (
          if tenant_id == asked_tenant && scope == asked_scope
          then ok position
          else fail ErrorCode.invalid_cursor)
  unfolding read_payload
  read_payload_lem asked_tenant asked_scope read named =
      rw (read, read_payload) (ground (arith, str_beq_iff position.id ""))

  decode_parts_lem :
      (asked_tenant asked_scope : String)
      → raw_url_decode (raw_url_encode payload) ≡ some payload
      → raw_url_decode (raw_url_encode signature) ≡ some signature
      → decode_parts platform key asked_tenant asked_scope
          (raw_url_encode payload)
          (raw_url_encode signature)
        ≡ read_payload platform asked_tenant asked_scope payload
  unfolding decode_parts
  decode_parts_lem asked_tenant asked_scope back_p back_s =
      rw (back_p, back_s, same_bytes_self signature, decode_parts)

  -- An encoded cursor decodes to its position for its own tenant and scope and to invalid_cursor for any
  -- other, where base64 and JSON give back what they were given and the position names a node.
  pub decode-encode :
      (asked_tenant asked_scope : String)
      → raw_url_decode (raw_url_encode payload) ≡ some payload
      → raw_url_decode (raw_url_encode signature) ≡ some signature
      → has_char b'.' (raw_url_encode payload) ≡ false
      → raw_url_encode payload ≢ ""
      → raw_url_encode signature ≢ ""
      → unmarshal_cursor payload ≡ some (payload_of platform tenant_id scope position)
      → position.id ≢ ""
      → decode platform key (encode platform key tenant_id scope position) asked_tenant asked_scope
        ≡ (if tenant_id == asked_tenant && scope == asked_scope
            then ok position
            else fail ErrorCode.invalid_cursor)
  unfolding encode decode
  decode-encode asked_tenant asked_scope back_p back_s dotless some_p some_s read named =
      rw
        (
          cut_dot-append (raw_url_encode payload) (raw_url_encode signature) dotless,
          decode_parts_lem asked_tenant asked_scope back_p back_s,
          read_payload_lem asked_tenant asked_scope read named,
          append_ne (raw_url_encode payload) (append "." (raw_url_encode signature)) some_p,
        )
        (ground (
          arith,
          str_beq_iff (raw_url_encode payload) "",
          str_beq_iff (raw_url_encode signature) "",
        ))
