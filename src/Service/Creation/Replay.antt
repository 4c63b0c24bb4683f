-- ===== src/Service/Creation/Replay.antt =====
-- internal/drive/service.go: a directory that is created again under the same idempotency key.
use asteria_drive.Prelude.{
  String, true, false, some, ◌<◌, ◌≡◌, ◌≢◌, refl, arith, ◌∙◌, string_eq, str_beq, str_beq_iff,
}
use asteria_drive.Dict.{get}
use asteria_drive.Result.{Result, ok}
use asteria_drive.Validation.{validate_idempotency_request, validate_idempotency_key}
use asteria_drive.Validation.Names.{normalize_name}
use asteria_drive.Types.Access.{Identity}
use asteria_drive.Types.Node.{Node}
use asteria_drive.Types.Idempotency
use asteria_drive.Types.Idempotency.{IdempotencyRequest, IdempotencyRecord, completed}
use asteria_drive.Platform.{Platform}
use asteria_drive.Memory.State.{Repository}
use asteria_drive.Memory.Idempotency.{idempotency_key}
use asteria_drive.Memory.Namespace
use asteria_drive.Memory.Namespace.{new_directory, created_event, store_node}
use asteria_drive.Service.{Call, World, Settings}
use asteria_drive.Service.Steps.{>>=-step}
use asteria_drive.Service.Creation.{
  CreateDirectoryOutput, replay, claim_of, sha256_hex, claim_creation, replay_directory,
  directory_of_claim, create_directory,
}
use asteria_drive.Service.Creation.Done.{IsDone, claim_again}
use asteria_drive.Service.Creation.Claims.{request, recorded_claim, keyed_claim, claim_creation_lem}
use asteria_drive.Service.Creation.Storing.{
  claim_and_make, claim_and_make-IsDone, create_directory_prefix, create_directory_steps,
}

not_empty : (key : String) → key ≢ "" → str_beq key "" ≡ false
not_empty key named = ground (arith, named, str_beq_iff key "")

-- Two calls with one key and one text ask for the same record.
same_request :
    (platform : Platform) (settings : Settings) (call call' : Call) (identity : Identity)
    (key digest token token' : String) (r : Repository) (node : Node)
    → IsDone r (request platform settings call identity key digest token) node
    → IsDone r (request platform settings call' identity key digest token') node
unfolding idempotency_key
same_request platform settings call call' identity key digest token token' r node d = record {
  claim = d.claim;
  recorded = d.recorded;
  is_completed = d.is_completed;
  names_node = d.names_node;
  same_digest = d.same_digest;
  stored = d.stored;
  is_directory = d.is_directory;
  same_tenant = d.same_tenant;
}

module _ (platform : Platform) (settings : Settings) {S : Type 0} (call' : Call)
    (identity : Identity) where
  replay_directory_done :
      (q : IdempotencyRequest) (w : World S) (node : Node)
      → IsDone w.repository q node
      → q.identity.tenant_id ≡ identity.tenant_id
      → replay_directory platform settings identity node.id w
        ≡ (ok (record { node = node; replayed = true }), w)
  unfolding replay_directory Namespace.node
  replay_directory_done q w node d tenant = ground (
    arith,
    d.stored,
    d.is_directory,
    d.same_tenant,
    tenant,
    str_beq_iff node.tenant_id identity.tenant_id,
  )

  recorded_again :
      (p : IdempotencyRequest) (w : World S) (node : Node) (d : IsDone w.repository p node)
      → validate_idempotency_request p ≡ ok tt
      → p.now < d.claim.expires_at
      → recorded_claim platform settings call' identity p w ≡ (ok (replay node.id), w)
  unfolding recorded_claim claim_of
  recorded_again p w node d valid live =
      ground (arith, claim_again p w.repository node d valid live, d.is_completed, d.names_node)

  claim_creation_again :
      (key digest token : String) (w : World S) (node : Node)
      (d : IsDone w.repository (request platform settings call' identity key digest token) node)
      → str_beq key "" ≡ false
      → validate_idempotency_key key ≡ ok tt
      → call'.new_id 1 ≡ some token
      → validate_idempotency_request (request platform settings call' identity key digest token)
        ≡ ok tt
      → call'.now 0 < d.claim.expires_at
      → claim_creation platform settings call' 1 identity Idempotency.create_directory key digest w
        ≡ (ok (replay node.id), w)
  unfolding keyed_claim
  claim_creation_again key digest token w node d named good draw valid live =
      let p : IdempotencyRequest = request platform settings call' identity key digest token in
      rw (claim_creation_lem platform settings call' identity key digest named, good, draw)
        (recorded_again p w node d valid live)

  claim_and_make_again :
      (parent_id key : String) (names : String × String) (id token : String) (w : World S)
      (node : Node)
      (d : IsDone w.repository
        (request platform settings call' identity key
          (sha256_hex platform (platform.marshal_directory parent_id names.0))
          token)
        node)
      → str_beq key "" ≡ false
      → validate_idempotency_key key ≡ ok tt
      → call'.new_id 1 ≡ some token
      → validate_idempotency_request (
          request platform settings call' identity key
            (sha256_hex platform (platform.marshal_directory parent_id names.0))
            token)
        ≡ ok tt
      → call'.now 0 < d.claim.expires_at
      → claim_and_make platform settings call' identity parent_id key names id w
        ≡ (ok (record { node = node; replayed = true }), w)
  unfolding claim_and_make directory_of_claim
  claim_and_make_again parent_id key names id token w node d named good draw valid live =
      let digest : String = sha256_hex platform (platform.marshal_directory parent_id names.0) in
      >>=-step
        (claim_creation platform settings call' 1 identity Idempotency.create_directory key digest)
        (directory_of_claim platform settings call' identity parent_id names id) w w
        (replay node.id) (claim_creation_again key digest token w node d named good draw valid live)
      ∙ (replay_directory_done (request platform settings call' identity key digest token) w node d
          refl)

module _ (platform : Platform) (settings : Settings) {S : Type 0} (call call' : Call)
    (identity : Identity) (parent_id name key : String) (w : World S) where
  -- The world behind the first call, and the request of the second.
  abbrev first : Result CreateDirectoryOutput × World S
  first = create_directory platform settings call identity parent_id name key w

  abbrev second_request : String × String → String → IdempotencyRequest
  second_request names token =
      request platform settings call' identity key
        (sha256_hex platform (platform.marshal_directory parent_id names.0)) token

  -- After a successful creation of a directory that was no replay, under a valid key that is not empty,
  -- the same valid request, with other draws and while the record has not expired, is answered with the
  -- same node, marked replayed, and changes nothing in the repository.
  pub create_directory_again :
      (names : String × String) (out : CreateDirectoryOutput) (id token : String)
      → normalize_name platform name ≡ ok names
      → key ≢ ""
      → validate_idempotency_key key ≡ ok tt
      → first.0 ≡ ok out
      → out.replayed ≡ false
      → call'.new_id 0 ≡ some id
      → call'.new_id 1 ≡ some token
      → validate_idempotency_request (second_request names token) ≡ ok tt
      → ((c : IdempotencyRecord)
          → get first.1.repository.idempotency (idempotency_key (second_request names token))
            ≡ some c
          → call'.now 0 < c.expires_at)
      → create_directory platform settings call' identity parent_id name key first.1
        ≡ (ok (record { node = out.node; replayed = true }), first.1)
  create_directory_again names out id token normal keyed good h fresh draw draw' valid live =
      let digest : String = sha256_hex platform (platform.marshal_directory parent_id names.0) in
      let named : str_beq key "" ≡ false = not_empty key keyed in
      let (id0, parent_valid, steps) =
        create_directory_steps platform settings call identity parent_id name key names w out normal
          h in
      let (token0, done) =
        claim_and_make-IsDone platform settings call identity parent_id key names id0 w out named
          (rw steps at h) fresh in
      let now_done : IsDone first.1.repository (second_request names token) out.node =
        same_request platform settings call call' identity key digest token0 token
          first.1.repository out.node (rw (← steps) at done) in
      create_directory_prefix platform settings call' identity parent_id name key names id first.1
        normal parent_valid draw
      ∙ claim_and_make_again platform settings call' identity parent_id key names id token first.1
          out.node now_done named good draw' valid (live now_done.claim now_done.recorded)
