-- ===== src/Memory/Idempotency.antt =====
-- internal/memory/idempotency.go: a claim on an idempotency key, its release and its completion.
pub mod Claims
pub mod Held
use Prim.Native.String.{◌++◌ as append}
use asteria_drive.Prelude.{
  ℕ, String, Bool, true, false, Option, none, some, ◌&&◌, ◌||◌, ltb, not, ◌==◌, string_eq,
  if◌then◌else◌,
}
use asteria_drive.Dict.{get, put, delete}
use asteria_drive.Result.{Result, ok, err, ErrorCode}
use asteria_drive.Validation.{valid_id, validate_idempotency_request}
use asteria_drive.Types.Idempotency.{
  IdempotencyRequest, IdempotencyRecord, scope_text, pending, completed, idempotency_state_eq,
}
use asteria_drive.Memory.State.{Repository, Outcome, accept, reject}

unfoldable pub idempotency_key : IdempotencyRequest → String
idempotency_key q = append q.identity.tenant_id (
    append "\0" (
      append q.identity.principal_id
        (append "\0" (append (scope_text q.scope) (append "\0" q.key_hash)))))

-- The record of a first claim.
abbrev pub fresh_claim : IdempotencyRequest → IdempotencyRecord
fresh_claim q = record {
  identity = q.identity;
  scope = q.scope;
  key_hash = q.key_hash;
  request_digest = q.request_digest;
  state = pending;
  claim_token = q.claim_token;
  resource_id = "";
  locked_until = q.locked_until;
  expires_at = q.expires_at;
  created_at = q.now;
  updated_at = q.now;
}

abbrev store_claim : Repository → IdempotencyRequest → IdempotencyRecord → Repository
store_claim r q c = record r { idempotency = put r.idempotency (idempotency_key q) c }

-- A claim on a key whose record has not expired.
claim_live : IdempotencyRequest → IdempotencyRecord → Repository → Outcome IdempotencyRecord
claim_live q c r =
    if not (c.request_digest == q.request_digest)
    then reject ErrorCode.idempotency_conflict r
    else if c.state == completed || c.claim_token == q.claim_token
    then accept c r
    else if ltb q.now c.locked_until
    then (err (record { code = ErrorCode.dependency_unavailable; retryable = true }), r)
    else let c' = record c {
      claim_token = q.claim_token;
      locked_until = q.locked_until;
      expires_at = q.expires_at;
      updated_at = q.now;
    } in
      accept c' (store_claim r q c')

unfoldable pub claim_idempotency : IdempotencyRequest → Repository → Outcome IdempotencyRecord
unfolding claim_live
claim_idempotency q r = elim (validate_idempotency_request q) [
  | err e ↦ (err e, r)
  | ok _ ↦ elim (get r.idempotency (idempotency_key q)) [
    | none ↦ accept (fresh_claim q) (store_claim r q (fresh_claim q))
    | some c ↦
        if ltb q.now c.expires_at
        then claim_live q c r
        else accept (fresh_claim q) (store_claim r q (fresh_claim q))
  ]
]

-- The claim is pending and is the one that the request made.
unfoldable pub is_owned : IdempotencyRequest → IdempotencyRecord → Bool
is_owned q c =
    c.state == pending && c.request_digest == q.request_digest && c.claim_token == q.claim_token

unfoldable pub release_idempotency : IdempotencyRequest → Repository → Outcome (Unit {0})
release_idempotency q r = elim (validate_idempotency_request q) [
  | err e ↦ (err e, r)
  | ok _ ↦ elim (get r.idempotency (idempotency_key q)) [
    | none ↦ accept tt r
    | some c ↦
        if is_owned q c
        then accept tt (record r { idempotency = delete r.idempotency (idempotency_key q) })
        else accept tt r
  ]
]

abbrev pub completed_claim : IdempotencyRecord → String → ℕ → IdempotencyRecord
completed_claim c resource_id now = record c {
  state = completed;
  claim_token = "";
  resource_id = resource_id;
  locked_until = 0;
  updated_at = now;
}

-- `completeIdempotency`; without a request there is nothing to complete.
unfoldable pub complete_idempotency :
    Option IdempotencyRequest → String → ℕ → Repository → Outcome (Unit {0})
complete_idempotency none resource_id now r = accept tt r
complete_idempotency (some q) resource_id now r = elim (validate_idempotency_request q) [
  | err e ↦ (err e, r)
  | ok _ ↦
      if not (valid_id resource_id)
      then reject ErrorCode.invalid_request r
      else elim (get r.idempotency (idempotency_key q)) [
        | none ↦ reject ErrorCode.invalid_state r
        | some c ↦
            if is_owned q c
            then accept tt (store_claim r q (completed_claim c resource_id now))
            else reject ErrorCode.invalid_state r
      ]
]
