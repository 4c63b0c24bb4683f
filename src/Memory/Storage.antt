-- ===== src/Memory/Storage.antt =====
-- internal/memory/storage.go: the in-memory object storage, with the digests and texts of a `Platform`.
pub mod Objects
use Prim.Native.String.{◌++◌ as append}
use asteria_drive.Prelude.{
  ℕ, String, Bool, true, false, Option, none, some, List, [], ◌∷◌, ◌+◌, ◌++◌, ◌&&◌, not, ◌==◌,
  string_eq, map, length, take, sort_by, if◌then◌else◌,
}
use asteria_drive.Prelude.Int.{ℤ, pos, int_eq, ltb_ℤ}
use asteria_drive.Dict.{Dict, empty, get, put, delete, has}
use asteria_drive.Text.{hex_encode}
use asteria_drive.Result.{DriveError, Result, ok, err, fail, ErrorCode}
use asteria_drive.Types.Node.{Checksum, verified}
use asteria_drive.Types.Upload.{CompletedPart}
use asteria_drive.Types.Storage.{
  StoredPart, ObjectInfo, SignedPart, SignedDownload, Ambient, StorageProvider,
}
use asteria_drive.Platform.{Platform}

pub record MultipartUpload : Type 0 where
  pub key : String
  pub mime_type : String
  pub checksum : Checksum
  pub parts : Dict ℤ (List ℕ)

pub record StoredObject : Type 0 where
  pub content : List ℕ
  pub info : ObjectInfo

pub record Storage : Type 0 where
  pub bucket : String
  pub uploads : Dict String MultipartUpload
  pub objects : Dict String StoredObject
  pub ready_err : Option DriveError
  pub base_url : String

unfoldable pub new_storage : String → Storage
new_storage bucket =
    let name : String = if bucket == "" then "asteria-memory" else bucket in
    record {
      bucket = name;
      uploads = empty;
      objects = empty;
      ready_err = none;
      base_url = append "memory://" name;
    }

unfoldable pub set_storage_ready_error : Option DriveError → Storage → Storage
set_storage_ready_error e s = record s { ready_err = e }

unfoldable pub create_multipart :
    Ambient → String → String → Checksum → Storage → Result String × Storage
create_multipart ambient key mime_type checksum s = elim ambient.new_id [
  | none ↦ (fail ErrorCode.internal, s)
  | some id ↦ (
    ok id,
    record s {
      uploads =
          put s.uploads id
            (record { key = key; mime_type = mime_type; checksum = checksum; parts = empty });
    },
  )
]

-- The upload that an identifier and a key name.
unfoldable pub upload_at : Storage → String → String → Option MultipartUpload
upload_at s key upload_id = elim (get s.uploads upload_id) [
  | none ↦ none
  | some u ↦ if u.key == key then some u else none
]

unfoldable pub abort_multipart : String → String → Storage → Result (Unit {0}) × Storage
abort_multipart key upload_id s = elim (get s.uploads upload_id) [
  | none ↦ (ok tt, s)
  | some u ↦
      if not (u.key == key)
      then (fail ErrorCode.not_found, s)
      else (ok tt, record s { uploads = delete s.uploads upload_id })
]

unfoldable pub stat_object : String → Storage → Result ObjectInfo × Storage
stat_object key s = elim (get s.objects key) [
  | none ↦ (fail ErrorCode.not_found, s)
  | some o ↦ (ok o.info, s)
]

unfoldable pub delete_object : String → Storage → Result (Unit {0}) × Storage
delete_object key s = (ok tt, record s { objects = delete s.objects key })

-- The content and description of an object, and whether there is one; without one, Go's zero values.
unfoldable pub object : String → Storage → Option StoredObject
object key s = get s.objects key

abbrev pub in_order : List CompletedPart → List CompletedPart
in_order parts = sort_by (λ a b. ltb_ℤ a.part_number b.part_number) parts

module _ (platform : Platform) where
  open platform use {sha256, base64_encode, print_int, path_escape, encode_query, format_time}

  abbrev pub etag_of : List ℕ → String
  etag_of content = append "\"" (append (hex_encode (take 16 (sha256 content))) "\"")

  abbrev pub checksum_of : List ℕ → Checksum
  checksum_of content = record { algorithm = "sha256"; value = base64_encode (sha256 content) }

  unfoldable pub sign_part :
      Ambient → String → String → ℤ → Checksum → ℕ → Storage → Result (SignedPart × Bool) × Storage
  sign_part ambient key upload_id part_number checksum ttl s = elim (upload_at s key upload_id) [
    | none ↦ (fail ErrorCode.not_found, s)
    | some _ ↦
        let bound = checksum.algorithm == "sha256" in
        (
          ok (
            record {
              part_number = part_number;
              method = "PUT";
              url = append s.base_url (
                  append "/" (
                    append (path_escape key) (
                      append "?" (
                        encode_query (
                          ("upload_id", upload_id)
                          ∷ ("part_number", print_int part_number)
                          ∷ [])))));
              required_headers =
                  if bound then ("x-amz-checksum-sha256", checksum.value) ∷ [] else [];
              expires_at = ambient.wall_clock + ttl;
            },
            bound,
          ),
          s,
        )
  ]

  unfoldable pub put_part : String → ℤ → List ℕ → Storage → Result CompletedPart × Storage
  put_part upload_id part_number content s = elim (get s.uploads upload_id) [
    | none ↦ (fail ErrorCode.not_found, s)
    | some u ↦ (
      ok (record {
        part_number = part_number;
        etag = etag_of content;
        checksum = checksum_of content;
        size = pos (length content);
      }),
      record s {
        uploads = put s.uploads upload_id (record u { parts = put u.parts part_number content });
      },
    )
  ]

  -- The loop of `CompleteMultipart`: the bytes of the parts, one behind the other.
  unfoldable pub assemble : Dict ℤ (List ℕ) → List CompletedPart → Result (List ℕ)
  assemble stored [] = ok []
  assemble stored (part ∷ rest) = elim (get stored part.part_number) [
    | none ↦ fail ErrorCode.invalid_request
    | some content ↦
        if not (part.etag == etag_of content)
        then fail ErrorCode.invalid_request
        else elim (assemble stored rest) [ err e ↦ err e | ok more ↦ ok (content ++ more) ]
  ]

  abbrev pub object_info : String → String → List ℕ → ObjectInfo
  object_info bucket key content = record {
    bucket = bucket;
    object_key = key;
    size = pos (length content);
    etag = etag_of content;
    checksum = checksum_of content;
    checksum_status = verified;
  }

  unfoldable pub complete_multipart :
      String → String → List CompletedPart → Storage → Result ObjectInfo × Storage
  complete_multipart key upload_id parts s = elim (upload_at s key upload_id) [
    | none ↦ elim (get s.objects key) [
      | some o ↦ (ok o.info, s)
      | none ↦ (fail ErrorCode.not_found, s)
    ]
    | some u ↦ elim (assemble u.parts (in_order parts)) [
      | err e ↦ (err e, s)
      | ok content ↦
          if u.checksum.algorithm == "sha256"
            && not (u.checksum.value == (checksum_of content).value)
          then (fail ErrorCode.invalid_request, s)
          else (
            ok (object_info s.bucket key content),
            record s {
              objects =
                  put s.objects key
                    (record { content = content; info = object_info s.bucket key content });
              uploads = delete s.uploads upload_id;
            },
          )
    ]
  ]

  abbrev stored_part : ℤ × List ℕ → StoredPart
  stored_part (part_number, content) = record {
    part_number = part_number;
    etag = etag_of content;
    size = pos (length content);
    storage_checksum = checksum_of content;
    checksum_attested = true;
    reusable = false;
  }

  unfoldable pub list_parts : String → String → Storage → Result (List StoredPart) × Storage
  list_parts key upload_id s = elim (upload_at s key upload_id) [
    | none ↦ (fail ErrorCode.not_found, s)
    | some u ↦
        (ok (sort_by (λ a b. ltb_ℤ a.part_number b.part_number) (map stored_part u.parts)), s)
  ]

  unfoldable pub sign_download :
      Ambient → String → String → ℕ → Storage → Result SignedDownload × Storage
  sign_download ambient key filename ttl s =
      if not (has s.objects key)
      then (fail ErrorCode.not_found, s)
      else let expires_at = ambient.wall_clock + ttl in
        (
          ok (record {
            method = "GET";
            url = append s.base_url (
                append "/" (
                  append (path_escape key) (
                    append "?" (
                      encode_query
                        (("filename", filename) ∷ ("expires", format_time expires_at) ∷ [])))));
            expires_at = expires_at;
          }),
          s,
        )

  -- `var _ drive.StorageProvider = (*Storage)(nil)`
  abbrev pub storage_provider : StorageProvider Storage
  storage_provider = record {
    storage_ready = λ s. s.ready_err;
    bucket = λ s. s.bucket;
    create_multipart = create_multipart;
    sign_part = sign_part;
    complete_multipart = complete_multipart;
    abort_multipart = abort_multipart;
    list_parts = list_parts;
    stat_object = stat_object;
    sign_download = sign_download;
    delete_object = delete_object;
  }
