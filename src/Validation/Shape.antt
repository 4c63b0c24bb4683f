-- ===== src/Validation/Shape.antt =====
-- internal/drive/util.go and idempotency.go: the shape of an accepted identifier or request.
use asteria_drive.Prelude.{◌≡◌, ◌≢◌, ◌<◌, String, true, arith, nat_eq}
use asteria_drive.Result.{ok}
use asteria_drive.Types.Idempotency.{IdempotencyRequest}
use asteria_drive.Validation.{valid_id, validate_idempotency_request}

-- No accepted identifier is empty.
pub valid_id_ne : (s : String) → valid_id s ≡ true → s ≢ ""
unfolding valid_id
valid_id_ne s h e = let h' : valid_id "" ≡ true = rw e at h in cc h'

-- The instants of an accepted request are in order: 0 < now < locked_until < expires_at.
pub request_times :
    (q : IdempotencyRequest)
    → validate_idempotency_request q ≡ ok tt
    → (0 < q.now) × (q.now < q.locked_until) × (q.locked_until < q.expires_at)
unfolding validate_idempotency_request
request_times q h = ground arith
