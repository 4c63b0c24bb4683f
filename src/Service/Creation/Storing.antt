-- ===== src/Service/Creation/Storing.antt =====
-- internal/drive/service.go: the creation of a directory under its claim.
use mathlib.Core.Path.{subst}
use asteria_drive.Prelude.{
  String, true, false, some, ◌≡◌, ◌≢◌, inl, inr, refl, arith, string_eq, str_beq, Bool-cases,
  Option-cases,
}
use asteria_drive.Result.{DriveError, Result, ok, err}
use asteria_drive.Validation.{valid_id}
use asteria_drive.Validation.Names.{normalize_name}
use asteria_drive.Types.Access.{Identity}
use asteria_drive.Types.Node.{Node, CreateDirectoryCommand}
use asteria_drive.Types.Idempotency
use asteria_drive.Types.Idempotency.{IdempotencyRequest, IdempotencyRecord, completed}
use asteria_drive.Platform.{Platform}
use asteria_drive.Memory.State.{Repository}
use asteria_drive.Memory.Namespace
use asteria_drive.Memory.Namespace.{new_directory, created_event, store_node}
use asteria_drive.Service.{Call, World, Action, Settings, ◌>>=◌}
use asteria_drive.Service.Steps.{Result-cases, >>=-ok, >>-raise_fails}
use asteria_drive.Service.Creation.{
  CreateDirectoryOutput, Claim, unkeyed, claimed, replay, sha256_hex, claim_creation,
  replay_directory, answer_directory, store_directory, directory_of_claim,
  release_known_failed_claim, create_directory,
}
use asteria_drive.Service.Creation.Done.{IsDone, create_directory-IsDone}
use asteria_drive.Service.Creation.Claims.{
  request, Holds, claim_creation-Holds, claim_creation_keyed,
}

abbrev command :
    Call
    → Identity
    → String
    → String × String
    → String
    → IdempotencyRequest
    → CreateDirectoryCommand
command call identity parent_id names id q = record {
  identity = identity;
  id = id;
  parent_id = parent_id;
  display_name = names.0;
  normalized_name = names.1;
  now = call.now 1;
  idempotency = some q;
}

module _ (platform : Platform) (settings : Settings) {S : Type 0} (call : Call)
    (identity : Identity) where
  abbrev made :
      String → String × String → String → IdempotencyRequest → World S → Result Node × Repository
  made parent_id names id q w =
      Namespace.create_directory call.context (command call identity parent_id names id q)
        w.repository

  store_directory_ok :
      (parent_id : String) (names : String × String) (id : String) (q : IdempotencyRequest)
      (w : World S) (node : Node)
      → (made parent_id names id q w).0 ≡ ok node
      → store_directory platform settings call identity parent_id names id (some q) w ≡ (
        ok (record { node = node; replayed = false }),
        record w { repository = (made parent_id names id q w).1 },
      )
  unfolding store_directory answer_directory
  store_directory_ok parent_id names id q w node e = rw e

  store_directory_fails :
      (parent_id : String) (names : String × String) (id : String) (q : IdempotencyRequest)
      (w : World S) (e : DriveError) (out : CreateDirectoryOutput)
      → (made parent_id names id q w).0 ≡ err e
      → (store_directory platform settings call identity parent_id names id (some q) w).0 ≢ ok out
  unfolding store_directory answer_directory
  store_directory_fails parent_id names id q w e out failed h =
      >>-raise_fails (release_known_failed_claim (some q) e) e
        (record w { repository = (made parent_id names id q w).1 }) out (rw failed at h)

  -- The directory of a claim that is held, once it is stored.
  store_directory-IsDone :
      (parent_id : String) (names : String × String) (id key digest : String)
      (q : IdempotencyRequest) (w : World S) (out : CreateDirectoryOutput)
      → Holds platform settings call identity key digest q w.repository
      → (store_directory platform settings call identity parent_id names id (some q) w).0 ≡ ok out
      → IsDone
          (store_directory platform settings call identity parent_id names id
            (some q)
            w).1.repository
          q
          out.node
  store_directory-IsDone parent_id names id key digest q w out holds h =
      elim (Result-cases (made parent_id names id q w).0) [
        | inr (e, failed) ↦ absurd (store_directory_fails parent_id names id q w e out failed h)
        | inl (node, e) ↦
            let stored = store_directory_ok parent_id names id q w node e in
            let done =
              create_directory-IsDone call.context (command call identity parent_id names id q) q
                w.repository node holds.record_of refl (rw holds.is_request refl) holds.recorded
                holds.same_digest e in
            let same : node ≡ out.node = ground (arith, stored, h) in
            rw stored (subst (IsDone (made parent_id names id q w).1 q) same done)
      ]

  replay_directory_replays :
      (id : String) (w : World S) (out : CreateDirectoryOutput)
      → (replay_directory platform settings identity id w).0 ≡ ok out
      → out.replayed ≡ true
  unfolding replay_directory
  replay_directory_replays id w out h =
      elim (Result-cases (Namespace.node identity id true w.repository)) [
        | inr (e, failed) ↦ ground (arith, failed, h)
        | inl (node, e) ↦ ground (arith, e, h)
      ]

  -- What the steps of `CreateDirectoryWithIdempotency` are behind the name.
  unfoldable pub claim_and_make :
      String → String → String × String → String → Action S CreateDirectoryOutput
  claim_and_make parent_id key names id =
      claim_creation platform settings call 1 identity Idempotency.create_directory key
        (sha256_hex platform (platform.marshal_directory parent_id names.0))
      >>= directory_of_claim platform settings call identity parent_id names id

  claim-IsDone :
      (parent_id key : String) (names : String × String) (id : String) (claim : Claim) (w : World S)
      (out : CreateDirectoryOutput)
      → str_beq key "" ≡ false
      → (claim_creation platform settings call 1 identity Idempotency.create_directory key
          (sha256_hex platform (platform.marshal_directory parent_id names.0))
          w).0
        ≡ ok claim
      → let w' =
          (claim_creation platform settings call 1 identity Idempotency.create_directory key
            (sha256_hex platform (platform.marshal_directory parent_id names.0))
            w).1 in
        (directory_of_claim platform settings call identity parent_id names id claim w').0 ≡ ok out
        → out.replayed ≡ false
        → (token : String) × IsDone
            (directory_of_claim platform settings call identity parent_id names id claim
              w').1.repository
            (request platform settings call identity key
              (sha256_hex platform (platform.marshal_directory parent_id names.0))
              token)
            out.node
  unfolding directory_of_claim
  claim-IsDone parent_id key names id unkeyed w out named e h fresh = absurd (
      claim_creation_keyed platform settings call identity key
        (sha256_hex platform (platform.marshal_directory parent_id names.0)) w named e)
  claim-IsDone parent_id key names id (replay resource_id) w out named e h fresh =
      let w' =
        (claim_creation platform settings call 1 identity Idempotency.create_directory key
          (sha256_hex platform (platform.marshal_directory parent_id names.0)) w).1 in
      ground (arith, fresh, replay_directory_replays resource_id w' out h)
  claim-IsDone parent_id key names id (claimed q) w out named e h fresh =
      let digest : String = sha256_hex platform (platform.marshal_directory parent_id names.0) in
      let w' =
        (claim_creation platform settings call 1 identity Idempotency.create_directory key digest
          w).1 in
      let holds = claim_creation-Holds platform settings call identity key digest q w named e in
      let done = store_directory-IsDone parent_id names id key digest q w' out holds h in
      (
        holds.token,
        subst
            (λ (x : IdempotencyRequest).
              IsDone
                (store_directory platform settings call identity parent_id names id (some q)
                  w').1.repository
                x out.node)
            holds.is_request done,
      )

  pub claim_and_make-IsDone :
      (parent_id key : String) (names : String × String) (id : String) (w : World S)
      (out : CreateDirectoryOutput)
      → str_beq key "" ≡ false
      → (claim_and_make parent_id key names id w).0 ≡ ok out
      → out.replayed ≡ false
      → (token : String) × IsDone
          (claim_and_make parent_id key names id w).1.repository
          (request platform settings call identity key
            (sha256_hex platform (platform.marshal_directory parent_id names.0))
            token)
          out.node
  unfolding claim_and_make
  claim_and_make-IsDone parent_id key names id w out named h fresh =
      let digest : String = sha256_hex platform (platform.marshal_directory parent_id names.0) in
      let creation =
        claim_creation platform settings call 1 identity Idempotency.create_directory key digest in
      let (claim, e, goes_on) =
        >>=-ok creation (directory_of_claim platform settings call identity parent_id names id) w
          out h in
      rw goes_on (claim-IsDone parent_id key names id claim w out named e (rw goes_on at h) fresh)

  pub create_directory_prefix :
      (parent_id name key : String) (names : String × String) (id : String) (w : World S)
      → normalize_name platform name ≡ ok names
      → valid_id parent_id ≡ true
      → call.new_id 0 ≡ some id
      → create_directory platform settings call identity parent_id name key w
        ≡ claim_and_make parent_id key names id w
  unfolding create_directory claim_and_make
  create_directory_prefix parent_id name key names id w normal good draw = rw (good, normal, draw)

  -- The steps before the claim
  pub create_directory_steps :
      (parent_id name key : String) (names : String × String) (w : World S)
      (out : CreateDirectoryOutput)
      → normalize_name platform name ≡ ok names
      → (create_directory platform settings call identity parent_id name key w).0 ≡ ok out
      → (id : String) × (valid_id parent_id ≡ true)
        × (create_directory platform settings call identity parent_id name key w
            ≡ claim_and_make parent_id key names id w)
  unfolding create_directory claim_and_make
  create_directory_steps parent_id name key names w out named h =
      elim (Bool-cases (valid_id parent_id)) [
        | inr bad ↦ ground (arith, bad, h)
        | inl good ↦ elim (Option-cases (call.new_id 0)) [
          | inl dry ↦ ground (arith, good, named, dry, h)
          | inr (id, draw) ↦
              (id, good, create_directory_prefix parent_id name key names id w named good draw)
        ]
      ]
