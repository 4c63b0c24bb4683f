-- ===== src/Service/Parts/Sizes.antt =====
-- internal/drive/service.go: the sizes of the parts of an upload, taken together.
use asteria_drive.Prelude.{ℕ, zero, suc, ◌+◌, ltb, if◌then◌else◌}
use asteria_drive.Prelude.Int.{ℤ, pos, negsuc, ltb_ℤ}
use asteria_drive.Types.Upload.{UploadSession}
use asteria_drive.Service.Parts.{signed_part_size}

-- The bytes of a size; no size is negative.
abbrev pub byte_count : ℤ → ℕ
byte_count (pos n) = n
byte_count (negsuc n) = 0

-- The bytes of the parts 1 to `k`.
unfoldable pub total_size : UploadSession → ℕ → ℕ
total_size session zero = 0
total_size session (suc k) =
    total_size session k + byte_count (signed_part_size session (pos (suc k)))

-- What is there of `n` bytes before byte `m`.
abbrev pub at_most : ℕ → ℕ → ℕ
at_most n m = if ltb m n then m else n

-- What the clamps of `signedPartSize` make of the 64-bit difference.
unfoldable pub clamped : ℤ → ℤ → ℤ
clamped size remaining =
    if ltb_ℤ size remaining then size else if ltb_ℤ remaining (pos 0) then pos 0 else remaining
