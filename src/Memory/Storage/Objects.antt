-- ===== src/Memory/Storage/Objects.antt =====
-- internal/memory/storage.go, `CompleteMultipart`: the object that a multipart upload becomes.
use mathlib.Core.Path.{subst}
use asteria_drive.Prelude.{
  ℕ, String, Bool, true, false, none, some, List, [], ◌∷◌, ◌++◌, ◌≡◌, inl, inr, sym, arith,
  string_eq, str_beq_iff, str_beq_self, Option-cases,
}
use asteria_drive.Prelude.Sorting.{IsSorted, sort_by-Perm, sort_by-IsSorted}
use mathlib.Core.List.{Permᴰ}
use asteria_drive.Prelude.Int.{ℤ, int_eq, ltb_ℤ}
use asteria_drive.Dict.{Dict, get, put, delete}
use asteria_drive.Dict.Laws.{get-put_self, get-delete}
use asteria_drive.Result.{Result, ok}
use asteria_drive.Types.Upload.{CompletedPart}
use asteria_drive.Types.Storage.{ObjectInfo}
use asteria_drive.Platform.{Platform}
use asteria_drive.Service.Steps.{Result-cases}
use asteria_drive.Memory.Storage.{
  MultipartUpload, Storage, upload_at, stat_object, object, etag_of, checksum_of, assemble,
  object_info, in_order, complete_multipart,
}

-- The order in which a completion joins parts
abbrev pub before : CompletedPart → CompletedPart → Bool
before a b = ltb_ℤ a.part_number b.part_number

before_asym : (a b : CompletedPart) → before a b ≡ true → before b a ≡ false
unfolding ltb_ℤ
before_asym a b h = ground (arith, h)

module _ (platform : Platform) where
  -- The bytes of the parts, one behind the other, each the bytes that its entity tag names.
  pub data IsJoined (stored : Dict ℤ (List ℕ)) : List CompletedPart → List ℕ → Type 0 where
    nothing : IsJoined stored [] []
    behind :
        {part : CompletedPart} {parts : List CompletedPart} {content more : List ℕ}
        → get stored part.part_number ≡ some content
        → part.etag ≡ etag_of platform content
        → IsJoined stored parts more
        → IsJoined stored (part ∷ parts) (content ++ more)

  assemble-IsJoined :
      (stored : Dict ℤ (List ℕ)) (parts : List CompletedPart) (content : List ℕ)
      → assemble platform stored parts ≡ ok content
      → IsJoined stored parts content
  unfolding assemble
  assemble-IsJoined stored [] content h = subst (IsJoined stored []) (ground (arith, h)) nothing
  assemble-IsJoined stored (part ∷ parts) content h =
      elim (Option-cases (get stored part.part_number)) [
        | inl missing ↦ ground (arith, missing, h)
        | inr (bytes, found) ↦ elim (Result-cases (assemble platform stored parts)) [
          | inr (e, failed) ↦ ground (arith, found, failed, h)
          | inl (more, rest) ↦
              subst (IsJoined stored (part ∷ parts)) (ground (arith, found, rest, h)) (
                behind found
                  (ground (arith, found, h, str_beq_iff part.etag (etag_of platform bytes)))
                  (assemble-IsJoined stored parts more rest))
        ]
      ]

  -- What a completion has stored under the key: the joined bytes, of the declared digest, and their description.
  pub record IsStored (key : String) (u : MultipartUpload) (parts : List CompletedPart)
      (info : ObjectInfo) (s : Storage) : Type 0 where
    pub content : List ℕ
    pub joined : IsJoined u.parts parts content
    pub found : object key s ≡ some (record { content = content; info = info })
    pub described : info ≡ object_info platform s.bucket key content
    pub declared : u.checksum.algorithm ≡ "sha256" → u.checksum.value ≡ info.checksum.value
    pub seen : stat_object key s ≡ (ok info, s)
    pub repeated :
        (upload_id : String) (again : List CompletedPart)
        → upload_at s key upload_id ≡ none
        → complete_multipart platform key upload_id again s ≡ (ok info, s)

  -- The storage behind a completion.
  abbrev completed : String → String → Storage → List ℕ → Storage
  completed key upload_id s content = record s {
    objects =
        put s.objects key
          (record { content = content; info = object_info platform s.bucket key content });
    uploads = delete s.uploads upload_id;
  }

  upload_at_stored :
      (key upload_id : String) (s : Storage) (content : List ℕ)
      → upload_at (completed key upload_id s content) key upload_id ≡ none
  unfolding upload_at
  upload_at_stored key upload_id s content =
      ground (arith, get-delete s.uploads upload_id upload_id, str_beq_self upload_id)

  joins :
      (key upload_id : String) (parts : List CompletedPart) (s : Storage) (u : MultipartUpload)
      (info : ObjectInfo)
      → upload_at s key upload_id ≡ some u
      → (complete_multipart platform key upload_id parts s).0 ≡ ok info
      → (content : List ℕ) × (assemble platform u.parts (in_order parts) ≡ ok content)
        × (complete_multipart platform key upload_id parts s
            ≡ (ok (object_info platform s.bucket key content), completed key upload_id s content))
        × (u.checksum.algorithm ≡ "sha256"
            → u.checksum.value ≡ (checksum_of platform content).value)
  unfolding complete_multipart
  joins key upload_id parts s u info at h =
      elim (Result-cases (assemble platform u.parts (in_order parts))) [
        | inr (e, failed) ↦ ground (arith, at, failed, h)
        | inl (content, joined) ↦ (
          content,
          joined,
          ground (arith, at, joined, h),
          ground (
            arith,
            at,
            joined,
            h,
            str_beq_iff u.checksum.algorithm "sha256",
            str_beq_iff u.checksum.value (checksum_of platform content).value,
          ),
        )
      ]

  assembled-IsStored :
      (key upload_id : String) (parts : List CompletedPart) (s : Storage) (u : MultipartUpload)
      (info : ObjectInfo) (content : List ℕ)
      → IsJoined u.parts parts content
      → info ≡ object_info platform s.bucket key content
      → (u.checksum.algorithm ≡ "sha256" → u.checksum.value ≡ (checksum_of platform content).value)
      → IsStored key u parts info (completed key upload_id s content)
  unfolding object stat_object complete_multipart
  assembled-IsStored key upload_id parts s u info content joined described agrees =
      let there =
        get-put_self s.objects key
          (record { content = content; info = object_info platform s.bucket key content }) in
      record {
        content = content;
        joined = joined;
        found = ground (arith, there, described);
        described = described;
        declared = ground (arith, agrees, described);
        seen = ground (arith, there, described);
        repeated = λ other again gone. ground (arith, there, described, gone);
      }

  -- A successful completion of an open multipart upload stores the bytes of the request's parts, the
  -- parts in ascending order of their numbers, whatever their order in the request, with the answered
  -- description, which a stat finds; the checksum agrees with a declared SHA-256, the upload is gone,
  -- and later completions of a missing upload under the key give the same answer.
  pub complete_multipart-IsStored :
      (key upload_id : String) (parts : List CompletedPart) (s : Storage) (u : MultipartUpload)
      (info : ObjectInfo)
      → upload_at s key upload_id ≡ some u
      → (complete_multipart platform key upload_id parts s).0 ≡ ok info
      → let s' = (complete_multipart platform key upload_id parts s).1 in
        (ordered : List CompletedPart) × Permᴰ parts ordered
        × IsSorted before ordered
        × IsStored key u ordered info s'
        × (upload_at s' key upload_id ≡ none)
  complete_multipart-IsStored key upload_id parts s u info at h =
      let (content, joined, result, agrees) = joins key upload_id parts s u info at h in
      let ordered : List CompletedPart = in_order parts in
      let (kept, gone) =
        subst
          (λ (x : Result ObjectInfo × Storage).
            IsStored key u ordered info x.1 × (upload_at x.1 key upload_id ≡ none))
          (sym result)
          (
            assembled-IsStored key upload_id ordered s u info content
                (assemble-IsJoined u.parts ordered content joined) (ground (arith, result, h))
                agrees,
            upload_at_stored key upload_id s content,
          ) in
      (ordered, sort_by-Perm before parts, sort_by-IsSorted before before_asym parts, kept, gone)
