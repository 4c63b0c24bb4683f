-- ===== src/Validation.antt =====
-- internal/drive/util.go and idempotency.go: identifiers, digests and idempotency requests.
pub mod Names
pub mod Shape
use asteria_drive.Prelude.{
  ℕ, ◌+◌, ◌<◌, String, len, Bool, true, false, ◌&&◌, ◌||◌, List, [], ◌∷◌, ltb, leb, ◌==◌, nat_eq,
  not, if◌then◌else◌,
}
use asteria_drive.Text.{codes}
use asteria_drive.Result.{Result, ok, fail, ErrorCode}
use asteria_drive.Types.Access.{Identity}
use asteria_drive.Types.Idempotency.{IdempotencyRequest, valid_idempotency_scope}

abbrev pub is_hex_digit : ℕ → Bool
is_hex_digit c =
    (leb b'0' c && leb c b'9') || (leb b'a' c && leb c b'f') || (leb b'A' c && leb c b'F')

abbrev pub is_dash_index : ℕ → Bool
is_dash_index i = i == 8 || i == 13 || i == 18 || i == 23

-- The four tests of `ValidID` for a dash and its loop, from index `i`. An index counts bytes, and a
-- character of more than one byte is refused wherever it stands, so it counts characters as well.
unfoldable pub valid_id_from : ℕ → List ℕ → Bool
valid_id_from i [] = true
valid_id_from i (c ∷ cs) =
    (if is_dash_index i then c == b'-' else is_hex_digit c) && valid_id_from (i + 1) cs

unfoldable pub valid_id : String → Bool
unfolding valid_id_from
valid_id value = len value == 36 && valid_id_from 0 (codes value)

abbrev is_lower_hex_digit : ℕ → Bool
is_lower_hex_digit c = is_hex_digit c && not (leb b'A' c && leb c b'F')

all_lower_hex : List ℕ → Bool
all_lower_hex [] = true
all_lower_hex (c ∷ cs) = is_lower_hex_digit c && all_lower_hex cs

-- 64 bytes that `hex.DecodeString` reads and that `strings.ToLower` leaves alone.
unfoldable pub valid_sha256_hex : String → Bool
unfolding all_lower_hex
valid_sha256_hex value = len value == 64 && all_lower_hex (codes value)

-- Visible characters, from `!` to `~`.
all_visible : List ℕ → Bool
all_visible [] = true
all_visible (c ∷ cs) = leb 0x21 c && leb c 0x7e && all_visible cs

unfoldable pub validate_idempotency_key : String → Result (Unit {0})
unfolding all_visible
validate_idempotency_key value =
    if len value == 0 || ltb 255 (len value)
    then fail ErrorCode.invalid_request
    else if all_visible (codes value)
    then ok tt
    else fail ErrorCode.invalid_request

unfoldable pub validate_idempotency_request : IdempotencyRequest → Result (Unit {0})
validate_idempotency_request q =
    if not (valid_id q.identity.tenant_id)
      || not (valid_id q.identity.principal_id)
      || not (valid_idempotency_scope q.scope)
      || not (valid_sha256_hex q.key_hash)
      || not (valid_sha256_hex q.request_digest)
      || not (valid_id q.claim_token)
    then fail ErrorCode.invalid_request
    else if q.now == 0 || not (ltb q.now q.locked_until) || not (ltb q.locked_until q.expires_at)
    then fail ErrorCode.invalid_request
    else ok tt
