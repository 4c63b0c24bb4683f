-- ===== src/Examples/Claims.antt =====
-- The theorems on idempotency claims at one key and three requests.
use asteria_drive.Prelude.{
  ◌≡◌, ◌≢◌, true, some, [], ◌∷◌, arith, refl, string_eq, str_beq, str_beq_iff, ◌⊎◌,
}
use asteria_drive.Dict.{get}
use asteria_drive.Result.{ok, err, ErrorCode}
use asteria_drive.Validation.{valid_id, valid_sha256_hex, validate_idempotency_request}
use asteria_drive.Types.Idempotency.{
  IdempotencyRequest, IdempotencyRecord, completed, valid_idempotency_scope,
}
use asteria_drive.Memory.State.{Repository, reject}
use asteria_drive.Memory.Idempotency.{
  claim_idempotency, complete_idempotency, release_idempotency, idempotency_key, is_owned,
  completed_claim, fresh_claim,
}
use asteria_drive.Memory.Idempotency.Claims.{
  claim-stored, claim_other_digest, claim_locked, claim_taken_over, claim_after_complete,
  complete_once, release_frees,
}
use asteria_drive.Memory.Idempotency.Held.{retry_later}
use asteria_drive.Examples.Fixtures.{
  repository, claim_request, digest_a, digest_b, alice_id, bob_id, carol_id,
}

-- A first request, and others of the same key: another digest, another token within and after the lock.
abbrev first : IdempotencyRequest
first = claim_request digest_a alice_id 5

abbrev other : IdempotencyRequest
other = claim_request digest_b bob_id 6

abbrev early : IdempotencyRequest
early = claim_request digest_a bob_id 6

abbrev late : IdempotencyRequest
late = claim_request digest_a bob_id 20

valid :
    (validate_idempotency_request first ≡ ok tt)
    × (validate_idempotency_request other ≡ ok tt)
    × (validate_idempotency_request early ≡ ok tt)
    × (validate_idempotency_request late ≡ ok tt)
unfolding validate_idempotency_request valid_id valid_sha256_hex valid_idempotency_scope
valid = (refl, refl, refl, refl)

abbrev claimed : Repository
claimed = record repository { idempotency = (idempotency_key first, fresh_claim first) ∷ [] }

claims : (claim_idempotency first repository).0 ≡ ok (fresh_claim first)
unfolding claim_idempotency validate_idempotency_request valid_id valid_sha256_hex
    valid_idempotency_scope get
claims = refl

stored : get claimed.idempotency (idempotency_key first) ≡ some (fresh_claim first)
unfolding get
stored = ground (arith, str_beq_iff (idempotency_key first) (idempotency_key first))

same_key :
    (idempotency_key other ≡ idempotency_key first)
    × (idempotency_key early ≡ idempotency_key first)
    × (idempotency_key late ≡ idempotency_key first)
unfolding idempotency_key
same_key = (refl, refl, refl)

differ : (digest_b ≢ digest_a) × (alice_id ≢ bob_id) × (bob_id ≢ alice_id)
unfolding str_beq
differ = (
  ground (arith, str_beq_iff digest_b digest_a),
  ground (arith, str_beq_iff alice_id bob_id),
  ground (arith, str_beq_iff bob_id alice_id),
)

resource : valid_id carol_id ≡ true
unfolding valid_id
resource = refl

completes : (complete_idempotency (some first) carol_id 7 claimed).0 ≡ ok tt
unfolding complete_idempotency validate_idempotency_request valid_id valid_sha256_hex
    valid_idempotency_scope get is_owned str_beq idempotency_key
completes = refl

claim-stored_example :
    (get (claim_idempotency first repository).1.idempotency (idempotency_key first)
      ≡ some (fresh_claim first))
    × ((fresh_claim first).request_digest ≡ digest_a)
    × (((fresh_claim first).state ≡ completed) ⊎ ((fresh_claim first).claim_token ≡ alice_id))
claim-stored_example = claim-stored first repository (fresh_claim first) claims

claim_other_digest_example :
    claim_idempotency other (claim_idempotency first repository).1
    ≡ reject ErrorCode.idempotency_conflict (claim_idempotency first repository).1
claim_other_digest_example =
    claim_other_digest first other repository (fresh_claim first) claims same_key.0 differ.0
      (omega arith) valid.1

claim_locked_example :
    (claim_idempotency early (claim_idempotency first repository).1
      ≡ (err retry_later, (claim_idempotency first repository).1))
    × ((complete_idempotency
          (some first)
          carol_id
          7
          (claim_idempotency early (claim_idempotency first repository).1).1).0
        ≡ ok tt)
claim_locked_example =
    claim_locked first early repository (fresh_claim first) carol_id 7 claims refl same_key.1 refl
      differ.2 (omega arith) (omega arith) valid.2 resource

claim_taken_over_example :
    ((c' : IdempotencyRecord) × ((claim_idempotency late claimed).0 ≡ ok c')
      × (c'.claim_token ≡ bob_id))
    × (complete_idempotency (some first) carol_id 21 (claim_idempotency late claimed).1
        ≡ reject ErrorCode.invalid_state (claim_idempotency late claimed).1)
claim_taken_over_example =
    claim_taken_over first late claimed (fresh_claim first) carol_id 21 stored refl refl differ.2
      same_key.2 refl (omega arith) (omega arith) valid.3 valid.0 resource

claim_after_complete_example :
    claim_idempotency early (complete_idempotency (some first) carol_id 7 claimed).1 ≡ (
      ok (completed_claim (fresh_claim first) carol_id 7),
      (complete_idempotency (some first) carol_id 7 claimed).1,
    )
claim_after_complete_example =
    claim_after_complete first early claimed (fresh_claim first) carol_id 7 stored completes
      same_key.1 refl (omega arith) valid.2

complete_once_example :
    complete_idempotency
      (some late)
      carol_id
      8
      (complete_idempotency (some first) carol_id 7 claimed).1
    ≡ reject ErrorCode.invalid_state (complete_idempotency (some first) carol_id 7 claimed).1
complete_once_example =
    complete_once first late claimed carol_id carol_id 7 8 completes same_key.2 valid.3 resource

release_frees_example :
    (release_idempotency late (claim_idempotency first repository).1
      ≡ (ok tt, (claim_idempotency first repository).1))
    × ((release_idempotency first (claim_idempotency first repository).1).0 ≡ ok tt)
    × ((claim_idempotency late
          (release_idempotency first (claim_idempotency first repository).1).1).0
        ≡ ok (fresh_claim late))
release_frees_example =
    release_frees first late repository (fresh_claim first) claims refl same_key.2 differ.2 valid.3
