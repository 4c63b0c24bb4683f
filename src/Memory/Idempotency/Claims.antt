-- ===== src/Memory/Idempotency/Claims.antt =====
-- internal/memory/idempotency.go: who owns a claim, and what a later request with the same key is answered.
use asteria_drive.Prelude.{
  ℕ, ◌≡◌, ◌≢◌, ◌≤◌, ◌<◌, String, true, some, arith, ◌⊎◌, refl, string_eq, str_beq_iff,
}
use asteria_drive.Dict.{get}
use asteria_drive.Dict.Laws.{get-put_self}
use asteria_drive.Result.{ok, err, ErrorCode}
use asteria_drive.Validation.{valid_id, validate_idempotency_request}
use asteria_drive.Types.Idempotency.{IdempotencyRequest, IdempotencyRecord, pending, completed}
use asteria_drive.Memory.State.{Repository, reject}
use asteria_drive.Memory.Idempotency.{
  claim_idempotency, complete_idempotency, release_idempotency, idempotency_key, is_owned,
  completed_claim, fresh_claim,
}
use asteria_drive.Memory.Idempotency.Held.{
  Holds, retry_later, refuse_other, complete_held, release_other, release_held,
}

-- A claim that is answered is what the repository holds under the key; it has the request's digest,
-- and it is completed or has the request's own token.
pub claim-stored :
    (q : IdempotencyRequest) (r : Repository) (c : IdempotencyRecord)
    → (claim_idempotency q r).0 ≡ ok c
    → (get (claim_idempotency q r).1.idempotency (idempotency_key q) ≡ some c)
      × (c.request_digest ≡ q.request_digest)
      × ((c.state ≡ completed) ⊎ (c.claim_token ≡ q.claim_token))
unfolding claim_idempotency
claim-stored q r c h = grind (arith, get-put_self, str_beq_iff)

-- After a claim, a valid request with the same key and another digest is refused with
-- idempotency_conflict and changes nothing, until the record expires.
pub claim_other_digest :
    (q p : IdempotencyRequest) (r : Repository) (c : IdempotencyRecord)
    → (claim_idempotency q r).0 ≡ ok c
    → idempotency_key p ≡ idempotency_key q
    → p.request_digest ≢ q.request_digest
    → p.now < c.expires_at
    → validate_idempotency_request p ≡ ok tt
    → claim_idempotency p (claim_idempotency q r).1
      ≡ reject ErrorCode.idempotency_conflict (claim_idempotency q r).1
unfolding claim_idempotency
claim_other_digest q p r c h k d live valid = ground (
  arith,
  claim-stored q r c h,
  str_beq_iff p.request_digest q.request_digest,
  str_beq_iff c.request_digest p.request_digest,
)

claim_valid :
    (q : IdempotencyRequest) (r : Repository) (c : IdempotencyRecord)
    → (claim_idempotency q r).0 ≡ ok c
    → validate_idempotency_request q ≡ ok tt
unfolding claim_idempotency
claim_valid q r c h = ground arith

claim-Holds :
    (q : IdempotencyRequest) (r : Repository) (c : IdempotencyRecord)
    → (claim_idempotency q r).0 ≡ ok c
    → c.state ≡ pending
    → Holds q (claim_idempotency q r).1 c
claim-Holds q r c h s =
    let (there, digest, whose) = claim-stored q r c h in
    record {
      stored = there;
      is_pending = s;
      same_digest = digest;
      same_token = ground (arith, whose);
      is_valid = claim_valid q r c h;
    }

-- After a claim that is answered with a pending record, until its lock or the record runs out, a valid
-- request with the same key and digest and another token is told to retry and changes nothing, so that
-- the first request can still complete the claim with a valid resource.
pub claim_locked :
    (q p : IdempotencyRequest) (r : Repository) (c : IdempotencyRecord) (id : String) (now : ℕ)
    → (claim_idempotency q r).0 ≡ ok c
    → c.state ≡ pending
    → idempotency_key p ≡ idempotency_key q
    → p.request_digest ≡ q.request_digest
    → p.claim_token ≢ q.claim_token
    → p.now < c.locked_until
    → p.now < c.expires_at
    → validate_idempotency_request p ≡ ok tt
    → valid_id id ≡ true
    → (claim_idempotency p (claim_idempotency q r).1 ≡ (err retry_later, (claim_idempotency q r).1))
      × ((complete_idempotency (some q) id now (claim_idempotency p (claim_idempotency q r).1).1).0
          ≡ ok tt)
claim_locked q p r c id now h s k d t l live valid vid =
    let held = claim-Holds q r c h s in
    let refused = refuse_other q p (claim_idempotency q r).1 c held k d t l live valid in
    (refused, rw refused (complete_held q (claim_idempotency q r).1 c id now held vid))

-- Once the lock of a live pending claim has run out, a valid request with the same key and digest and
-- another token takes it over, and then the former owner's valid completion is refused with
-- invalid_state and changes nothing.
pub claim_taken_over :
    (q p : IdempotencyRequest) (r : Repository) (c : IdempotencyRecord) (id : String) (now : ℕ)
    → get r.idempotency (idempotency_key q) ≡ some c
    → c.state ≡ pending
    → c.claim_token ≡ q.claim_token
    → p.claim_token ≢ q.claim_token
    → idempotency_key p ≡ idempotency_key q
    → p.request_digest ≡ c.request_digest
    → c.locked_until ≤ p.now
    → p.now < c.expires_at
    → validate_idempotency_request p ≡ ok tt
    → validate_idempotency_request q ≡ ok tt
    → valid_id id ≡ true
    → ((c' : IdempotencyRecord) × ((claim_idempotency p r).0 ≡ ok c')
        × (c'.claim_token ≡ p.claim_token))
      × (complete_idempotency (some q) id now (claim_idempotency p r).1
          ≡ reject ErrorCode.invalid_state (claim_idempotency p r).1)
unfolding claim_idempotency complete_idempotency is_owned
claim_taken_over q p r c id now g s t other k d l live vp vq vid =
    let same = str_beq_iff c.request_digest p.request_digest in
    let mine = str_beq_iff c.claim_token p.claim_token in
    let theirs = str_beq_iff p.claim_token q.claim_token in
    (
      (
        record c {
          claim_token = p.claim_token;
          locked_until = p.locked_until;
          expires_at = p.expires_at;
          updated_at = p.now;
        },
        ground (arith, same, mine),
        refl,
      ),
      grind (arith, get-put_self, same, mine, theirs),
    )

-- After a completion, until the record expires, every valid request with the same key and digest is
-- answered with the completed record and changes nothing.
pub claim_after_complete :
    (q p : IdempotencyRequest) (r : Repository) (c : IdempotencyRecord) (id : String) (now : ℕ)
    → get r.idempotency (idempotency_key q) ≡ some c
    → (complete_idempotency (some q) id now r).0 ≡ ok tt
    → idempotency_key p ≡ idempotency_key q
    → p.request_digest ≡ q.request_digest
    → p.now < c.expires_at
    → validate_idempotency_request p ≡ ok tt
    → claim_idempotency p (complete_idempotency (some q) id now r).1
      ≡ (ok (completed_claim c id now), (complete_idempotency (some q) id now r).1)
unfolding complete_idempotency claim_idempotency is_owned
claim_after_complete q p r c id now g done k d live valid = grind (arith, get-put_self, str_beq_iff)

-- After a completion, a valid completion under the same key is refused with invalid_state and changes
-- nothing, whoever asks.
pub complete_once :
    (q p : IdempotencyRequest) (r : Repository) (id id' : String) (now now' : ℕ)
    → (complete_idempotency (some q) id now r).0 ≡ ok tt
    → idempotency_key p ≡ idempotency_key q
    → validate_idempotency_request p ≡ ok tt
    → valid_id id' ≡ true
    → complete_idempotency (some p) id' now' (complete_idempotency (some q) id now r).1
      ≡ reject ErrorCode.invalid_state (complete_idempotency (some q) id now r).1
unfolding complete_idempotency is_owned
complete_once q p r id id' now now' done k vp vid = grind (arith, get-put_self)

-- After a claim that is answered with a pending record: a valid release of the same key under another
-- token succeeds and changes nothing, and the claim's own release succeeds and frees the key, so that
-- any valid request of that key, whatever its digest, is answered with a fresh claim of its own.
pub release_frees :
    (q p : IdempotencyRequest) (r : Repository) (c : IdempotencyRecord)
    → (claim_idempotency q r).0 ≡ ok c
    → c.state ≡ pending
    → idempotency_key p ≡ idempotency_key q
    → p.claim_token ≢ q.claim_token
    → validate_idempotency_request p ≡ ok tt
    → (release_idempotency p (claim_idempotency q r).1 ≡ (ok tt, (claim_idempotency q r).1))
      × ((release_idempotency q (claim_idempotency q r).1).0 ≡ ok tt)
      × ((claim_idempotency p (release_idempotency q (claim_idempotency q r).1).1).0
          ≡ ok (fresh_claim p))
release_frees q p r c h s k t valid =
    let held = claim-Holds q r c h s in
    let (done, free) = release_held q p (claim_idempotency q r).1 c held k valid in
    (release_other q p (claim_idempotency q r).1 c held k t valid, done, free)
