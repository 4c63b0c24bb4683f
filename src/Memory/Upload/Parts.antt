-- ===== src/Memory/Upload/Parts.antt =====
-- internal/memory/repository.go: the recorded parts and part signatures, the expired sessions and the
-- content of a file.
use asteria_drive.Prelude.{
  ℕ, zero, suc, String, Bool, none, some, List, [], ◌∷◌, ◌+◌, ◌&&◌, ◌||◌, ltb, not, ◌==◌, string_eq,
  length, take, filter, sort_by, if◌then◌else◌,
}
use asteria_drive.Prelude.Int.{ℤ, pos, int_eq, ltb_ℤ, leb_ℤ}
use asteria_drive.Dict.{Dict, empty, get, get_or, put, values}
use asteria_drive.Result.{Result, ok, fail, ErrorCode}
use asteria_drive.Types.Access.{Identity}
use asteria_drive.Types.Node.{Node, Blob, kind_eq, file, available, blob_status_eq}
use asteria_drive.Types.Upload.{
  UploadSession, CompletedPart, PartSignature, max_upload_parts, is_terminal,
}
use asteria_drive.Memory.State.{Repository, Outcome, accept, reject, upload_for, visible}

unfoldable pub upload_parts : Identity → String → Repository → Result (List CompletedPart)
upload_parts identity id r = elim (upload_for r identity id) [
  | none ↦ fail ErrorCode.not_found
  | some _ ↦ ok (get_or [] r.parts id)
]

-- `drive.ValidChecksum` of a digest is a parameter here, `valid_digest`.
unfoldable pub record_part_signature :
    (String → Bool) → Identity → String → PartSignature → Repository → Outcome (Unit {0})
record_part_signature valid_digest identity id part r =
    if ltb_ℤ part.part_number (pos 1)
      || ltb_ℤ (pos max_upload_parts) part.part_number
      || leb_ℤ part.size (pos 0)
      || not (valid_digest part.sha256)
    then reject ErrorCode.invalid_request r
    else elim (upload_for r identity id) [
      | none ↦ reject ErrorCode.not_found r
      | some _ ↦ accept tt (record r {
        part_signatures =
            put r.part_signatures id
              (put (get_or empty r.part_signatures id) part.part_number part);
      })
    ]

-- The loop of `PartSignatures` over the part numbers from `n` on, for `rounds` rounds.
unfoldable pub signatures_from : Dict ℤ PartSignature → ℕ → ℕ → List PartSignature
signatures_from m n zero = []
signatures_from m n (suc rounds) =
    let rest = signatures_from m (n + 1) rounds in
    elim (get m (pos n)) [ none ↦ rest | some signature ↦ signature ∷ rest ]

unfoldable pub part_signatures : Identity → String → Repository → Result (List PartSignature)
part_signatures identity id r = elim (upload_for r identity id) [
  | none ↦ fail ErrorCode.not_found
  | some _ ↦ ok (signatures_from (get_or empty r.part_signatures id) 1 max_upload_parts)
]

unfoldable pub expired_uploads : ℕ → ℕ → Repository → List UploadSession
expired_uploads now limit r =
    let found =
      sort_by (λ a b. ltb a.expires_at b.expires_at)
        (filter (λ s. not (is_terminal s.status) && not (ltb now s.expires_at))
          (values r.uploads)) in
    if ltb limit (length found) && ltb 0 limit then take limit found else found

unfoldable pub download_blob : Identity → String → Repository → Result (Node × Blob)
download_blob identity node_id r = elim (get r.nodes node_id) [
  | none ↦ fail ErrorCode.not_found
  | some node ↦
      if not (node.tenant_id == identity.tenant_id) || not (node.kind == file) || not (visible node)
      then fail ErrorCode.not_found
      else elim (get r.versions node.current_version_id) [
        | none ↦ fail ErrorCode.internal
        | some version ↦
            if not (version.tenant_id == identity.tenant_id)
            then fail ErrorCode.internal
            else elim (get r.blobs version.blob_id) [
              | none ↦ fail ErrorCode.not_found
              | some blob ↦
                  if not (blob.tenant_id == identity.tenant_id) || not (blob.status == available)
                  then fail ErrorCode.not_found
                  else ok (node, blob)
            ]
      ]
]
