-- ===== src/Service.antt =====
-- internal/drive/service.go: the service over the repository and an object storage. A method is an action:
-- from the repository and the storage's state to its result and what it leaves. `S` is the state of the
-- storage provider. The contexts of Go carry the request's identifier only; deadlines have no counterpart.
pub mod Steps
pub mod Cursor
pub mod Nodes
pub mod Creation
pub mod Uploads
pub mod Parts
pub mod Completion
pub mod Publishing
pub mod Tenants
pub mod Governance
use asteria_drive.Prelude.{
  ℕ, ◌*◌, String, Bool, true, false, Option, none, some, List, ◌&&◌, ◌||◌, not, ltb, ◌==◌,
  if◌then◌else◌,
}
use asteria_drive.Prelude.Int.{ℤ, pos, ltb_ℤ, leb_ℤ}
use asteria_drive.Validation.{valid_id}
use asteria_drive.Result.{DriveError, Result, ok, err, fail, fail_retryable, ErrorCode, code_of}
use asteria_drive.Types.Access.{Identity, AccessRole, owner, admin, role_eq, valid_access_role}
use asteria_drive.Types.Storage.{Ambient, StorageProvider}
use asteria_drive.Memory.State.{Repository, Outcome}
use asteria_drive.Memory.Audit.{CallContext}

-- What one call of a method draws from outside: at its k-th place the clock's reading, an identifier of
-- `NewID` (`none` when the random source fails), what the provider draws, and the context of the audit event.
pub record Call : Type 0 where
  pub now : ℕ → ℕ
  pub new_id : ℕ → Option String
  pub ambient : Ambient
  pub context : CallContext

pub record World (S : Type 0) : Type 0 where
  pub repository : Repository
  pub storage : S

abbrev pub Action : Type 0 → Type 0 → Type 0
Action S A = World S → Result A × World S

module _ {S A : Type 0} where
  abbrev pub pure : A → Action S A
  pure a w = (ok a, w)

  abbrev pub raise : DriveError → Action S A
  raise e w = (err e, w)

  -- `return E(code, message)`
  abbrev pub refuse : ErrorCode → Action S A
  refuse c w = (fail c, w)

  -- `return Retryable(code, message, cause)`
  abbrev pub refuse_retryable : ErrorCode → Action S A
  refuse_retryable c w = (fail_retryable c, w)

  abbrev pub lift : Result A → Action S A
  lift r w = (r, w)

  -- A call of the repository that reads, and one that may write.
  abbrev pub reading : (Repository → Result A) → Action S A
  reading f w = (f w.repository, w)

  abbrev pub on_repository : (Repository → Outcome A) → Action S A
  on_repository f w =
      let (r, repository) = f w.repository in (r, record w { repository = repository })

  abbrev pub on_storage : (S → Result A × S) → Action S A
  on_storage f w = let (r, storage) = f w.storage in (r, record w { storage = storage })

  -- A call whose error is looked at: `a, err := …` without a return.
  abbrev pub attempt : Action S A → Action S (Result A)
  attempt m w = let (r, w') = m w in (ok r, w')

  -- `if err == nil`, with an identifier of `NewID`.
  abbrev pub drawn : Option A → Action S A
  drawn o w = (elim o [ none ↦ fail ErrorCode.internal | some a ↦ ok a ], w)

infixl 5 ◌>>=◌ ◌>>◌
abbrev pub ◌>>=◌ : {S A B : Type 0} → Action S A → (A → Action S B) → Action S B
◌>>=◌ m f w = let (r, w') = m w in elim r [ ok a ↦ f a w' | err e ↦ (err e, w') ]

abbrev pub ◌>>◌ : {S A B : Type 0} → Action S A → Action S B → Action S B
m >> k = m >>= λ _. k

-- `_ = m`: the error is dropped.
abbrev pub ignore : {S A : Type 0} → Action S A → Action S (Unit {0})
ignore m w = let (_, w') = m w in (ok tt, w')

-- `if failed { return E(code, …) }`
abbrev pub refuse_if : {S : Type 0} → Bool → ErrorCode → Action S (Unit {0})
refuse_if failed c w = (if failed then fail c else ok tt, w)

-- `validateID`
abbrev pub require_id : {S : Type 0} → String → Action S (Unit {0})
require_id id = refuse_if (not (valid_id id)) ErrorCode.invalid_request

abbrev pub is_internal : ErrorCode → Bool
is_internal ErrorCode.internal = true
is_internal _ = false

abbrev pub is_missing : ErrorCode → Bool
is_missing ErrorCode.not_found = true
is_missing _ = false

-- `mapStorageError`, of an error
unfoldable pub map_storage_error : DriveError → DriveError
map_storage_error e =
    if is_internal (code_of e)
    then record { code = ErrorCode.dependency_unavailable; retryable = true }
    else e

-- A call of the storage whose error is returned through `mapStorageError`.
abbrev pub storage_step : {S A : Type 0} → (S → Result A × S) → Action S A
storage_step f w =
    let (r, storage) = f w.storage in
    (elim r [ ok a ↦ ok a | err e ↦ err (map_storage_error e) ], record w { storage = storage })

-- `Service`, less the repository and the storage, which are a `World` and a provider.
pub record Settings : Type 0 where
  pub cursor_key : List ℕ
  pub max_file_size : ℤ
  pub part_size : ℤ
  pub upload_ttl : ℕ
  pub upload_sign_ttl : ℕ
  pub download_sign_ttl : ℕ
  pub idempotency_claim_ttl : ℕ
  pub idempotency_retention : ℕ

-- `ServiceOptions`: durations may be negative.
pub record ServiceOptions : Type 0 where
  pub cursor_key : List ℕ
  pub max_file_size : ℤ
  pub part_size : ℤ
  pub upload_ttl : ℤ
  pub upload_sign_ttl : ℤ
  pub download_sign_ttl : ℤ
  pub idempotency_claim_ttl : ℤ
  pub idempotency_retention : ℤ

abbrev pub second : ℕ
second = 1000000000

abbrev size_or : ℤ → ℤ → ℤ
size_or value default = if leb_ℤ value (pos 0) then default else value

abbrev pub positive_or : ℤ → ℕ → ℕ
positive_or (pos ℕ.zero) default = default
positive_or (pos (ℕ.suc n)) default = ℕ.suc n
positive_or _ default = default

-- `NewService`, once repository, storage and cursor are given.
unfoldable pub new_service : ServiceOptions → Result Settings
new_service o =
    let claim_ttl = positive_or o.idempotency_claim_ttl (60 * second) in
    let retention = positive_or o.idempotency_retention (24 * 3600 * second) in
    if not (ltb claim_ttl retention)
    then fail ErrorCode.invalid_request
    else ok (record {
      cursor_key = o.cursor_key;
      max_file_size = size_or o.max_file_size (pos (50 * 1024 * 1024 * 1024));
      part_size = size_or o.part_size (pos (8 * 1024 * 1024));
      upload_ttl = positive_or o.upload_ttl (24 * 3600 * second);
      upload_sign_ttl = positive_or o.upload_sign_ttl (15 * 60 * second);
      download_sign_ttl = positive_or o.download_sign_ttl (15 * 60 * second);
      idempotency_claim_ttl = claim_ttl;
      idempotency_retention = retention;
    })

-- `Ready`
unfoldable pub service_ready : {S : Type 0} → StorageProvider S → World S → Option DriveError
service_ready provider w = elim w.repository.ready_err [
  | some _ ↦ some (record { code = ErrorCode.dependency_unavailable; retryable = true })
  | none ↦ elim (provider.storage_ready w.storage) [
    | some _ ↦ some (record { code = ErrorCode.dependency_unavailable; retryable = true })
    | none ↦ none
  ]
]

pub record MemberActor : Type 0 where
  pub identity : Identity
  pub role : AccessRole

abbrev pub may_manage : AccessRole → Bool
may_manage role = role == owner || role == admin

-- `validateMemberActor`
unfoldable pub validate_member_actor : MemberActor → Result (Unit {0})
validate_member_actor actor =
    if not (valid_id actor.identity.tenant_id)
      || not (valid_id actor.identity.principal_id)
      || not (valid_access_role actor.role)
    then fail ErrorCode.invalid_request
    else ok tt

-- The page size of a list: 50 for 0, and from 1 to 200.
unfoldable pub page_limit : ℤ → Result ℕ
page_limit (pos ℕ.zero) = ok 50
page_limit (pos (ℕ.suc n)) =
    if ltb 200 (ℕ.suc n) then fail ErrorCode.invalid_request else ok (ℕ.suc n)
page_limit _ = fail ErrorCode.invalid_request
