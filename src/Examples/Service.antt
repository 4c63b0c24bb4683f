-- ===== src/Examples/Service.antt =====
-- The theorems on the service and on the maintenance loop, at one repository and the storage of `Toy`.
use asteria_drive.Prelude.{
  String, true, false, some, none, [], ◌∷◌, ◌≡◌, ◌≢◌, refl, sym, ◌∙◌, ◌<◌, Option, arith, take, any,
  filter, sort_by, insert_by, string_eq, str_beq, str_beq_iff,
}
use asteria_drive.Prelude.Int.{pos, int_beq, ltb_ℤ, leb_ℤ}
use asteria_drive.Dict.{get, get_or, put, values, any_entry}
use asteria_drive.Result.{DriveError, Result, ok, err, ErrorCode}
use asteria_drive.Types.Node.{no_node, no_checksum, directory}
use asteria_drive.Types.Upload.{
  UploadSession, CompletedPart, UploadMaintenanceClaim, RecycleMaintenanceClaim, uploading,
}
use asteria_drive.Memory.State.{
  Repository, MaintenanceLease, no_lease, upload_for, active_node, visible, name_exists, clashes,
}
use asteria_drive.Memory.Recycle.{
  prepare_purge, condemn, trashed_subtree, blobs_inside, referenced_outside,
}
use asteria_drive.Memory.Upload.Calls.{IsKeyed}
use asteria_drive.Service.{Call, World, Settings}
use asteria_drive.Service.Parts.{validate_parts, parts_ordered}
use asteria_drive.Service.Completion.{
  CompleteOutput, parts_digest, join_parts, accept_object, checksum_by_status, missing_checksum,
}
use asteria_drive.Service.Publishing.{
  complete_upload, complete_session, find_object, mark_completed, publish_object,
}
use asteria_drive.Service.Publishing.Published.{Delivered, complete_upload-Delivers}
use asteria_drive.Service.Creation.{
  CreateDirectoryOutput, create_directory, claim_creation, claim_of, directory_of_claim,
  store_directory, answer_directory, idempotency_request, sha256_hex,
}
use asteria_drive.Service.Creation.Replay.{create_directory_again}
use asteria_drive.Validation.{
  valid_id, valid_id_from, valid_sha256_hex, validate_idempotency_key, validate_idempotency_request,
}
use asteria_drive.Validation.Names.{normalize_name, valid_checksum}
use asteria_drive.Text.{hex_encode, bytes, is_trimmed, json_map_size}
use asteria_drive.Types.Idempotency
use asteria_drive.Types.Idempotency.{IdempotencyRequest, IdempotencyRecord, valid_idempotency_scope}
use asteria_drive.Memory.Idempotency.{
  claim_idempotency, complete_idempotency, is_owned, idempotency_key, fresh_claim,
}
use asteria_drive.Memory.Audit.{audited, append_audit, metadata_is_bounded}
use asteria_drive.Memory.Namespace
use asteria_drive.Memory.Upload.{
  begin_complete, mark_object_completed, commit_upload, has_directory,
}
use asteria_drive.Loop.{Turn}
use asteria_drive.Loop.Recycle.{process_recycle}
use asteria_drive.Loop.Recycle.Missing.{last, put_off, process_recycle_missing}
use asteria_drive.Examples.Fixtures.{context, carol, session, repository, with_session, live}
use asteria_drive.Examples.Nodes.{binned, plan}
use asteria_drive.Examples.Toy.{platform, provider}

abbrev call : Call
call = record {
  now = λ k. 7;
  new_id = λ k. some "11111111-1111-4111-8111-111111111111";
  ambient = record { new_id = some "id"; wall_clock = 7 };
  context = context;
}

abbrev turn : Turn
turn = record { call = call; random = λ n. 0 }

abbrev at : Repository → World (Unit {0})
at r = record { repository = r; storage = tt }

-- A session that the loop has claimed.
abbrev lease : MaintenanceLease
lease = record no_lease { owner = "loop"; until = 50 }

abbrev claimed : Repository
claimed = record (with_session (session uploading "")) {
  upload_maintenance = ("upload", lease) ∷ [];
}

abbrev upload_claim : UploadMaintenanceClaim
upload_claim = record {
  upload = session uploading "";
  owner = "loop";
  cleanup_pending = false;
  attempts = pos 0;
}

-- A node of the recycle bin that the loop has claimed.
abbrev recycle_claim : RecycleMaintenanceClaim
recycle_claim = record { identity = carol; root_id = "file"; revision = pos 1; owner = "loop" }

abbrev gone : DriveError
gone = record { code = ErrorCode.not_found; retryable = false }

abbrev claimed_bin : Repository
claimed_bin = record binned { recycle_maintenance = ("file", lease) ∷ [] }

leased_bin : get claimed_bin.recycle_maintenance "file" ≡ some lease
unfolding get str_beq
leased_bin = refl

planned_bin : (prepare_purge carol "file" (pos 1) 7 claimed_bin).0 ≡ ok plan
unfolding prepare_purge condemn blobs_inside referenced_outside trashed_subtree values get get_or
    any filter str_beq int_beq
planned_bin = refl

process_recycle_missing_example :
    ((process_recycle provider turn recycle_claim (at claimed_bin)).0 ≡ err gone)
    × ((process_recycle provider turn recycle_claim (at claimed_bin)).1.repository
        ≡ record (prepare_purge carol "file" (pos 1) 7 claimed_bin).1 {
          recycle_maintenance =
              put claimed_bin.recycle_maintenance "file"
                (put_off provider turn recycle_claim gone 7 lease);
        })
process_recycle_missing_example =
    process_recycle_missing provider turn recycle_claim plan gone lease (at claimed_bin) leased_bin
      refl planned_bin (last refl refl)

-- A session under an identifier that the service takes, and its one part.
abbrev upload_id : String
upload_id = "22222222-2222-4222-8222-222222222222"

abbrev open_session : UploadSession
open_session = record (session uploading "") { id = upload_id }

abbrev part : CompletedPart
part = record { part_number = pos 1; etag = "tag"; checksum = no_checksum; size = pos 5 }

abbrev uploaded : World (Unit {0})
uploaded = at (with_session open_session)

abbrev completion : Result CompleteOutput × World (Unit {0})
completion = complete_upload platform provider call carol upload_id (part ∷ []) uploaded

abbrev output_of : Result CompleteOutput → CompleteOutput
output_of (ok out) = out
output_of (err e) = record { upload = open_session; node = no_node; first = false }

keyed : IsKeyed (with_session open_session)
unfolding get
keyed = record { at_key = λ id t g. ground (arith, str_beq_iff open_session.id id) }

completes : (completion.0 ≡ ok (output_of completion.0)) × ((output_of completion.0).first ≡ true)
unfolding complete_upload valid_id valid_id_from validate_parts parts_ordered valid_checksum ltb_ℤ
    leb_ℤ str_beq parts_digest sort_by insert_by hex_encode take begin_complete upload_for get
    complete_session find_object join_parts accept_object checksum_by_status missing_checksum
    int_beq mark_completed mark_object_completed publish_object commit_upload has_directory
    active_node visible name_exists any_entry audited append_audit metadata_is_bounded json_map_size
    clashes put
completes = (refl, refl)

complete_upload-Delivers_example :
    (s : UploadSession) × ((begin_complete carol upload_id
        (parts_digest platform (part ∷ []))
        (part ∷ [])
        7
        uploaded.repository).0
      ≡ ok s)
    × Delivered platform provider call carol upload_id
        (part ∷ [])
        s
        tt
        (output_of completion.0)
        completion.1.repository
complete_upload-Delivers_example =
    complete_upload-Delivers platform provider call carol upload_id (part ∷ []) uploaded
      (output_of completion.0) keyed completes.0 completes.1

-- A directory for a new one, and the call that asks for it again.
abbrev parent_id : String
parent_id = "33333333-3333-4333-8333-333333333333"

abbrev tree : World (Unit {0})
tree = at (record repository { nodes = (parent_id, live parent_id "root" "docs" directory) ∷ [] })

abbrev settings : Settings
settings = record {
  cursor_key = [];
  max_file_size = pos 100;
  part_size = pos 5;
  upload_ttl = 10;
  upload_sign_ttl = 10;
  download_sign_ttl = 10;
  idempotency_claim_ttl = 10;
  idempotency_retention = 100;
}

abbrev creation : Result CreateDirectoryOutput × World (Unit {0})
creation = create_directory platform settings call carol parent_id "new" "key" tree

abbrev directory_of : Result CreateDirectoryOutput → CreateDirectoryOutput
directory_of (ok out) = out
directory_of (err e) = record { node = no_node; replayed = true }

creates : (creation.0 ≡ ok (directory_of creation.0)) × ((directory_of creation.0).replayed ≡ false)
unfolding create_directory valid_id valid_id_from normalize_name is_trimmed str_beq any
    validate_idempotency_key claim_creation claim_idempotency claim_of hex_encode take bytes
    valid_sha256_hex validate_idempotency_request valid_idempotency_scope get directory_of_claim
    store_directory answer_directory Namespace.create_directory has_directory active_node visible
    name_exists any_entry audited append_audit metadata_is_bounded json_map_size clashes
    complete_idempotency is_owned idempotency_key put
creates = (refl, refl)

abbrev again : IdempotencyRequest
again =
    idempotency_request platform settings call 0 carol Idempotency.create_directory "key"
      (sha256_hex platform (platform.marshal_directory parent_id "new"))
      "11111111-1111-4111-8111-111111111111"

abbrev claim_in : Option IdempotencyRecord → IdempotencyRecord
claim_in (some c) = c
claim_in none = fresh_claim again

recorded :
    (get creation.1.repository.idempotency (idempotency_key again)
      ≡ some (claim_in (get creation.1.repository.idempotency (idempotency_key again))))
    × ((claim_in (get creation.1.repository.idempotency (idempotency_key again))).expires_at ≡ 107)
unfolding create_directory valid_id valid_id_from normalize_name is_trimmed str_beq any
    validate_idempotency_key claim_creation claim_idempotency claim_of hex_encode take bytes
    valid_sha256_hex validate_idempotency_request valid_idempotency_scope get directory_of_claim
    store_directory answer_directory Namespace.create_directory has_directory active_node visible
    name_exists any_entry audited append_audit metadata_is_bounded json_map_size clashes
    complete_idempotency is_owned idempotency_key put
recorded = (refl, refl)

still_live :
    (c : IdempotencyRecord)
    → get creation.1.repository.idempotency (idempotency_key again) ≡ some c
    → 7 < c.expires_at
still_live c g =
    lives c (claim_in (get creation.1.repository.idempotency (idempotency_key again)))
      (sym recorded.0 ∙ g) recorded.1
  where
    lives : (c d : IdempotencyRecord) → some d ≡ some c → d.expires_at ≡ 107 → 7 < c.expires_at
    lives c d same e = ground arith

good_key : (validate_idempotency_key "key" ≡ ok tt) × (validate_idempotency_request again ≡ ok tt)
unfolding validate_idempotency_key validate_idempotency_request valid_id valid_id_from
    valid_sha256_hex valid_idempotency_scope hex_encode take bytes
good_key = (refl, refl)

good_name : normalize_name platform "new" ≡ ok ("new", "new")
unfolding normalize_name is_trimmed str_beq any
good_name = refl

abbrev IsNamed : String → Type 0
IsNamed s = s ≢ ""

key_given : IsNamed "key"
unfolding str_beq
key_given = ground (arith, str_beq_iff "key" "")

create_directory_again_example :
    create_directory platform settings call carol parent_id "new" "key" creation.1
    ≡ (ok (record { node = (directory_of creation.0).node; replayed = true }), creation.1)
create_directory_again_example =
    create_directory_again platform settings call call carol parent_id "new" "key" tree
      ("new", "new") (directory_of creation.0) "11111111-1111-4111-8111-111111111111"
      "11111111-1111-4111-8111-111111111111" good_name key_given good_key.0 creates.0 creates.1 refl
      refl good_key.1 still_live
