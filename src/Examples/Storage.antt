-- ===== src/Examples/Storage.antt =====
-- A storage and a platform at hand, and the theorems on parts, cursors and objects at them.
use asteria_drive.Prelude.{
  some, none, List, [], ◌∷◌, ◌≡◌, refl, arith, take, sort_by, insert_by, string_eq, str_beq,
  str_beq_iff,
}
use asteria_drive.Prelude.Int.{pos, ltb_ℤ, int_beq}
use asteria_drive.Dict.{get}
use asteria_drive.Text.{hex_encode, has_char}
use asteria_drive.Result.{ok}
use asteria_drive.Types.Node.{no_checksum, CursorPosition}
use asteria_drive.Types.Storage.{ObjectInfo}
use asteria_drive.Types.Upload.{UploadSession, CompletedPart, uploading}
use asteria_drive.Service.Cursor.{encode, decode}
use asteria_drive.Service.Cursor.Laws.{decode-encode}
use asteria_drive.Memory.Storage.{
  MultipartUpload, Storage, upload_at, assemble, complete_multipart, object_info, etag_of,
}
use asteria_drive.Memory.Storage.Objects.{IsStored, before, complete_multipart-IsStored}
use asteria_drive.Prelude.Sorting.{IsSorted}
use mathlib.Core.List.{Permᴰ}
use asteria_drive.Examples.Fixtures.{session}
use asteria_drive.Examples.Toy.{platform}

abbrev long : UploadSession
long = record (session uploading "") { expected_size = pos 12 }

abbrev position : CursorPosition
position = record { name = "b"; id = "b" }

decode-encode_example :
    decode platform [] (encode platform [] "tenant" "members" position) "tenant" "members"
    ≡ ok position
unfolding str_beq has_char
decode-encode_example =
    decode-encode platform [] "tenant" "members" position "tenant" "members" refl refl refl
      (ground (arith, str_beq_iff "payload" "")) (ground (arith, str_beq_iff "signature" "")) refl
      (ground (arith, str_beq_iff "b" ""))

abbrev first_part : CompletedPart
first_part = record {
  part_number = pos 1;
  etag = etag_of platform (1 ∷ 2 ∷ []);
  checksum = no_checksum;
  size = pos 2;
}

abbrev second_part : CompletedPart
second_part = record {
  part_number = pos 2;
  etag = etag_of platform (3 ∷ []);
  checksum = no_checksum;
  size = pos 1;
}

abbrev multipart : MultipartUpload
multipart = record {
  key = "object";
  mime_type = "text/plain";
  checksum = no_checksum;
  parts = (pos 1, 1 ∷ 2 ∷ []) ∷ (pos 2, 3 ∷ []) ∷ [];
}

abbrev storage : Storage
storage = record {
  bucket = "bucket";
  uploads = ("multipart", multipart) ∷ [];
  objects = [];
  ready_err = none;
  base_url = "memory://bucket";
}

abbrev parts : List CompletedPart
parts = second_part ∷ first_part ∷ []

abbrev info : ObjectInfo
info = object_info platform "bucket" "object" (1 ∷ 2 ∷ 3 ∷ [])

there : upload_at storage "object" "multipart" ≡ some multipart
unfolding upload_at get str_beq
there = refl

joined : (complete_multipart platform "object" "multipart" parts storage).0 ≡ ok info
unfolding complete_multipart assemble upload_at get str_beq int_beq sort_by insert_by ltb_ℤ
    hex_encode take
joined = refl

complete_multipart-IsStored_example :
    let after = (complete_multipart platform "object" "multipart" parts storage).1 in
    (ordered : List CompletedPart) × Permᴰ parts ordered
    × IsSorted before ordered
    × IsStored platform "object" multipart ordered info after
    × (upload_at after "object" "multipart" ≡ none)
complete_multipart-IsStored_example =
    complete_multipart-IsStored platform "object" "multipart" parts storage multipart info there
      joined
