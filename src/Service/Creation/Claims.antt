-- ===== src/Service/Creation/Claims.antt =====
-- internal/drive/service.go: the claim of a keyed creation.
use asteria_drive.Prelude.{String, false, some, ◌≡◌, ◌≢◌, arith, ◌∙◌, string_eq, str_beq}
use asteria_drive.Dict.{get}
use asteria_drive.Result.{ok}
use asteria_drive.Validation.{validate_idempotency_key}
use asteria_drive.Types.Access.{Identity}
use asteria_drive.Types.Idempotency
use asteria_drive.Types.Idempotency.{IdempotencyRequest, IdempotencyRecord, completed}
use asteria_drive.Platform.{Platform}
use asteria_drive.Memory.State.{Repository}
use asteria_drive.Memory.Idempotency.{claim_idempotency, idempotency_key}
use asteria_drive.Memory.Idempotency.Claims.{claim-stored}
use asteria_drive.Service.{Call, World, Action, Settings, lift, drawn, on_repository, ◌>>=◌}
use asteria_drive.Service.Steps.{>>=-ok}
use asteria_drive.Service.Creation.{
  Claim, unkeyed, claimed, claim_of, idempotency_request, claim_creation,
}

claim_of_own :
    (q q' : IdempotencyRequest) (c : IdempotencyRecord) → claim_of q c ≡ ok (claimed q') → q' ≡ q
unfolding claim_of
claim_of_own q q' c h = ground (arith, h)

claim_of_keyed : (q : IdempotencyRequest) (c : IdempotencyRecord) → claim_of q c ≢ ok unkeyed
unfolding claim_of
claim_of_keyed q c h = ground (arith, h)

module _ (platform : Platform) (settings : Settings) (call : Call) (identity : Identity) where
  abbrev pub request : String → String → String → IdempotencyRequest
  request key digest token =
      idempotency_request platform settings call 0 identity Idempotency.create_directory key digest
        token

  -- A claim that this call holds, as the repository has recorded it.
  pub record Holds (key digest : String) (q : IdempotencyRequest) (r : Repository) : Type 0 where
    pub token : String
    pub is_request : q ≡ request key digest token
    pub record_of : IdempotencyRecord
    pub recorded : get r.idempotency (idempotency_key q) ≡ some record_of
    pub same_digest : record_of.request_digest ≡ q.request_digest

module _ (platform : Platform) (settings : Settings) {S : Type 0} (call : Call)
    (identity : Identity) where
  -- The repository's part of `claimCreation`.
  unfoldable pub recorded_claim : IdempotencyRequest → Action S Claim
  recorded_claim q = on_repository (claim_idempotency q) >>= λ c. lift (claim_of q c)

  recorded_claim-Holds :
      (key digest token : String) (q' : IdempotencyRequest) (w : World S)
      → (recorded_claim (request platform settings call identity key digest token) w).0
        ≡ ok (claimed q')
      → Holds platform settings call identity key digest q'
          (recorded_claim (request platform settings call identity key digest token) w).1.repository
  unfolding recorded_claim
  recorded_claim-Holds key digest token q' w h =
      let q : IdempotencyRequest = request platform settings call identity key digest token in
      let (c, e, goes_on) =
        >>=-ok (on_repository (claim_idempotency q)) (λ c. lift (claim_of q c)) w (claimed q') h in
      let (there, same, _) = claim-stored q w.repository c e in
      let is_q = claim_of_own q q' c (rw goes_on at h) in
      record {
        token = token;
        is_request = is_q;
        record_of = c;
        recorded = rw (goes_on, is_q) there;
        same_digest = rw is_q same;
      }

  recorded_claim_keyed :
      (q : IdempotencyRequest) (w : World S) → (recorded_claim q w).0 ≢ ok unkeyed
  unfolding recorded_claim
  recorded_claim_keyed q w h =
      let (c, e, goes_on) =
        >>=-ok (on_repository (claim_idempotency q)) (λ c. lift (claim_of q c)) w unkeyed h in
      claim_of_keyed q c (rw goes_on at h)

  unfoldable pub keyed_claim : String → String → Action S Claim
  keyed_claim key digest = lift (validate_idempotency_key key) >>= λ _.
      drawn (call.new_id 1) >>= λ token.
      recorded_claim (request platform settings call identity key digest token)

  pub claim_creation_lem :
      (key digest : String)
      → str_beq key "" ≡ false
      → claim_creation platform settings call 1 identity Idempotency.create_directory key digest
        ≡ keyed_claim key digest
  unfolding claim_creation keyed_claim recorded_claim
  claim_creation_lem key digest named = rw named

  keyed_claim_lem :
      (key digest : String) (claim : Claim) (w : World S)
      → (keyed_claim key digest w).0 ≡ ok claim
      → (token : String) × (keyed_claim key digest w
          ≡ recorded_claim (request platform settings call identity key digest token) w)
  unfolding keyed_claim
  keyed_claim_lem key digest claim w h =
      let (_, _, valid_then) =
        >>=-ok (lift (validate_idempotency_key key))
          (λ _. drawn (call.new_id 1) >>= λ token.
            recorded_claim (request platform settings call identity key digest token))
          w claim h in
      let (token, e, drawn_then) =
        >>=-ok (drawn (call.new_id 1))
          (λ token. recorded_claim (request platform settings call identity key digest token)) w
          claim (rw valid_then at h) in
      (token, valid_then ∙ drawn_then)

  -- A claim under a key that is not empty: it is held, or it is the directory of a completed request.
  pub claim_creation-Holds :
      (key digest : String) (q : IdempotencyRequest) (w : World S)
      → str_beq key "" ≡ false
      → (claim_creation platform settings call 1 identity Idempotency.create_directory key digest
          w).0
        ≡ ok (claimed q)
      → Holds platform settings call identity key digest q
          (claim_creation platform settings call 1 identity Idempotency.create_directory key digest
            w).1.repository
  claim_creation-Holds key digest q w named h =
      let same = claim_creation_lem key digest named in
      let (token, goes_on) = keyed_claim_lem key digest (claimed q) w (rw same at h) in
      rw (same, goes_on) (recorded_claim-Holds key digest token q w (rw (same, goes_on) at h))

  pub claim_creation_keyed :
      (key digest : String) (w : World S)
      → str_beq key "" ≡ false
      → (claim_creation platform settings call 1 identity Idempotency.create_directory key digest
          w).0
        ≢ ok unkeyed
  claim_creation_keyed key digest w named h =
      let same = claim_creation_lem key digest named in
      let (token, goes_on) = keyed_claim_lem key digest unkeyed w (rw same at h) in
      recorded_claim_keyed (request platform settings call identity key digest token) w
        (rw (same, goes_on) at h)
