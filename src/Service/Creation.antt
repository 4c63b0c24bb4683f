-- ===== src/Service/Creation.antt =====
-- internal/drive/service.go: the creation of directories and uploads, with the claim of an idempotency key.
pub mod Claims
pub mod Done
pub mod Replay
pub mod Storing
use asteria_drive.Prelude.{
  ℕ, ◌+◌, String, Bool, true, false, Option, none, some, List, ◌&&◌, not, ◌==◌, string_eq,
  if◌then◌else◌,
}
use asteria_drive.Text.{bytes, hex_encode}
use asteria_drive.Validation.{validate_idempotency_key}
use asteria_drive.Result.{DriveError, Result, ok, err, fail, ErrorCode, code_of}
use asteria_drive.Types.Access.{Identity}
use asteria_drive.Types.Node.{Node, directory, kind_eq}
use asteria_drive.Types.Idempotency
use asteria_drive.Types.Idempotency.{
  IdempotencyScope, IdempotencyRequest, IdempotencyRecord, completed, idempotency_state_eq,
}
use asteria_drive.Platform.{Platform}
use asteria_drive.Validation.Names.{normalize_name}
use asteria_drive.Memory.Namespace
use asteria_drive.Memory.Idempotency.{claim_idempotency, release_idempotency}
use asteria_drive.Service.{
  Call, Action, pure, raise, refuse, lift, on_repository, attempt, drawn, ignore, ◌>>=◌, ◌>>◌,
  require_id, Settings,
}

pub record CreateDirectoryOutput : Type 0 where
  pub node : Node
  pub replayed : Bool

-- `knownFailedCreation`
unfoldable pub known_failed_creation : ErrorCode → Bool
known_failed_creation ErrorCode.invalid_cursor = false
known_failed_creation ErrorCode.unauthenticated = false
known_failed_creation ErrorCode.dependency_unavailable = false
known_failed_creation ErrorCode.internal = false
known_failed_creation _ = true

-- What `claimCreation` finds: no key, a claim that this request holds, or the resource of a request that
-- has been completed.
pub data Claim : Type 0 where
  unkeyed : Claim
  claimed : IdempotencyRequest → Claim
  replay : String → Claim

-- The record of a claim, for the request that asked.
unfoldable pub claim_of : IdempotencyRequest → IdempotencyRecord → Result Claim
claim_of request found =
    if found.state == Idempotency.pending && not (found.claim_token == request.claim_token)
    then fail ErrorCode.internal
    else if found.state == completed
    then ok (replay found.resource_id)
    else ok (claimed request)

-- `releaseKnownFailedClaim`
unfoldable pub release_known_failed_claim :
    {S : Type 0} → Option IdempotencyRequest → DriveError → Action S (Unit {0})
release_known_failed_claim none e = pure tt
release_known_failed_claim (some request) e =
    if known_failed_creation (code_of e)
    then ignore (on_repository (release_idempotency request))
    else pure tt

abbrev pub sha256_hex : Platform → List ℕ → String
sha256_hex platform content = hex_encode (platform.sha256 content)

-- The answer to a creation; an error may release the claim.
unfoldable pub answer_directory :
    {S : Type 0} → Option IdempotencyRequest → Result Node → Action S CreateDirectoryOutput
answer_directory claim (ok node) = pure (record { node = node; replayed = false })
answer_directory claim (err e) = release_known_failed_claim claim e >> raise e

module _ (platform : Platform) (settings : Settings) where
  abbrev pub idempotency_request :
      Call → ℕ → Identity → IdempotencyScope → String → String → String → IdempotencyRequest
  idempotency_request call k identity scope key request_digest claim_token = record {
    identity = identity;
    scope = scope;
    key_hash = sha256_hex platform (bytes key);
    request_digest = request_digest;
    claim_token = claim_token;
    locked_until = call.now k + settings.idempotency_claim_ttl;
    expires_at = call.now k + settings.idempotency_retention;
    now = call.now k;
  }

  module _ {S : Type 0} where
    -- `claimCreation`; `k` is the place of its claim token among the identifiers that the call draws.
    unfoldable pub claim_creation :
        Call → ℕ → Identity → IdempotencyScope → String → String → Action S Claim
    claim_creation call k identity scope key request_digest = if key == "" then pure unkeyed else do
      lift (validate_idempotency_key key)
      claim_token ← drawn (call.new_id k)
      let request : IdempotencyRequest =
          idempotency_request call 0 identity scope key request_digest claim_token
      found ← on_repository (claim_idempotency request)
      lift (claim_of request found)

    -- The directory of a completed claim.
    unfoldable pub replay_directory : Identity → String → Action S CreateDirectoryOutput
    replay_directory identity id w = elim (Namespace.node identity id true w.repository) [
      | err _ ↦ refuse ErrorCode.internal w
      | ok node ↦
          if node.kind == directory
          then pure (record { node = node; replayed = true }) w
          else refuse ErrorCode.internal w
    ]

    unfoldable pub store_directory :
        Call
        → Identity
        → String
        → String × String
        → String
        → Option IdempotencyRequest
        → Action S CreateDirectoryOutput
    store_directory call identity parent_id names id claim = do
      stored ← attempt (
          on_repository (
            Namespace.create_directory call.context (record {
              identity = identity;
              id = id;
              parent_id = parent_id;
              display_name = names.0;
              normalized_name = names.1;
              now = call.now 1;
              idempotency = claim;
            })))
      answer_directory claim stored

    unfoldable pub directory_of_claim :
        Call → Identity → String → String × String → String → Claim → Action S CreateDirectoryOutput
    directory_of_claim call identity parent_id names id (replay resource_id) =
        replay_directory identity resource_id
    directory_of_claim call identity parent_id names id unkeyed =
        store_directory call identity parent_id names id none
    directory_of_claim call identity parent_id names id (claimed request) =
        store_directory call identity parent_id names id (some request)

    unfoldable pub create_directory :
        Call → Identity → String → String → String → Action S CreateDirectoryOutput
    create_directory call identity parent_id name key = do
      require_id parent_id
      names ← lift (normalize_name platform name)
      id ← drawn (call.new_id 0)
      let request_digest : String =
          sha256_hex platform (platform.marshal_directory parent_id names.0)
      claim ← claim_creation call 1 identity Idempotency.create_directory key request_digest
      directory_of_claim call identity parent_id names id claim

    -- `CreateDirectory`
    unfoldable pub create_directory_plain : Call → Identity → String → String → Action S Node
    create_directory_plain call identity parent_id name = do
      output ← create_directory call identity parent_id name ""
      pure output.node
