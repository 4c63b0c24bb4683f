-- ===== src/Memory/Idempotency/Held.antt =====
-- internal/memory/idempotency.go: a pending claim that the repository holds for a request.
use asteria_drive.Prelude.{
  ℕ, ◌≡◌, ◌≢◌, ◌<◌, String, true, some, arith, string_eq, str_beq_iff, str_beq_self,
}
use asteria_drive.Dict.{get}
use asteria_drive.Dict.Laws.{get-delete}
use asteria_drive.Result.{DriveError, ok, err, ErrorCode}
use asteria_drive.Validation.{valid_id, validate_idempotency_request}
use asteria_drive.Types.Idempotency.{IdempotencyRequest, IdempotencyRecord, pending}
use asteria_drive.Memory.State.{Repository}
use asteria_drive.Memory.Idempotency.{
  claim_idempotency, complete_idempotency, release_idempotency, idempotency_key, is_owned,
  fresh_claim,
}

abbrev pub retry_later : DriveError
retry_later = record { code = ErrorCode.dependency_unavailable; retryable = true }

-- The repository holds a pending claim of the request.
pub record Holds (q : IdempotencyRequest) (r : Repository) (c : IdempotencyRecord) : Type 0 where
  pub stored : get r.idempotency (idempotency_key q) ≡ some c
  pub is_pending : c.state ≡ pending
  pub same_digest : c.request_digest ≡ q.request_digest
  pub same_token : c.claim_token ≡ q.claim_token
  pub is_valid : validate_idempotency_request q ≡ ok tt

pub refuse_other :
    (q p : IdempotencyRequest) (r : Repository) (c : IdempotencyRecord)
    → Holds q r c
    → idempotency_key p ≡ idempotency_key q
    → p.request_digest ≡ q.request_digest
    → p.claim_token ≢ q.claim_token
    → p.now < c.locked_until
    → p.now < c.expires_at
    → validate_idempotency_request p ≡ ok tt
    → claim_idempotency p r ≡ (err retry_later, r)
unfolding claim_idempotency
refuse_other q p r c held k d t l live valid = ground (
  arith,
  held.stored,
  held.is_pending,
  held.same_digest,
  held.same_token,
  str_beq_iff c.request_digest p.request_digest,
  str_beq_iff c.claim_token p.claim_token,
)

pub complete_held :
    (q : IdempotencyRequest) (r : Repository) (c : IdempotencyRecord) (id : String) (now : ℕ)
    → Holds q r c
    → valid_id id ≡ true
    → (complete_idempotency (some q) id now r).0 ≡ ok tt
unfolding complete_idempotency is_owned
complete_held q r c id now held vid = ground (
  arith,
  held.stored,
  held.is_pending,
  held.is_valid,
  str_beq_iff c.request_digest q.request_digest,
  str_beq_iff c.claim_token q.claim_token,
  held.same_digest,
  held.same_token,
)

pub release_other :
    (q p : IdempotencyRequest) (r : Repository) (c : IdempotencyRecord)
    → Holds q r c
    → idempotency_key p ≡ idempotency_key q
    → p.claim_token ≢ q.claim_token
    → validate_idempotency_request p ≡ ok tt
    → release_idempotency p r ≡ (ok tt, r)
unfolding release_idempotency is_owned
release_other q p r c held k t valid =
    ground (arith, held.stored, held.same_token, str_beq_iff c.claim_token p.claim_token)

pub release_held :
    (q p : IdempotencyRequest) (r : Repository) (c : IdempotencyRecord)
    → Holds q r c
    → idempotency_key p ≡ idempotency_key q
    → validate_idempotency_request p ≡ ok tt
    → ((release_idempotency q r).0 ≡ ok tt)
      × ((claim_idempotency p (release_idempotency q r).1).0 ≡ ok (fresh_claim p))
unfolding release_idempotency claim_idempotency is_owned
release_held q p r c held k valid = ground (
  arith,
  held.stored,
  held.is_pending,
  held.is_valid,
  held.same_digest,
  held.same_token,
  str_beq_iff c.request_digest q.request_digest,
  str_beq_iff c.claim_token q.claim_token,
  get-delete r.idempotency (idempotency_key q) (idempotency_key q),
  str_beq_self (idempotency_key q),
)
