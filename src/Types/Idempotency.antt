-- ===== src/Types/Idempotency.antt =====
-- internal/drive/types.go: idempotency claims. The last constructor of a type of constants stands for
-- every other string.
use asteria_drive.Prelude.{ℕ, String, Bool, true, ◌||◌, ◌≡◌, ◌↔◌, arith, Eq, ◌==◌, nat_eq}
use asteria_drive.Types.Access.{Identity}

pub data IdempotencyScope : Type 0 where
  create_directory create_upload no_scope : IdempotencyScope

abbrev pub scope_tag : IdempotencyScope → ℕ
scope_tag create_directory = 0
scope_tag create_upload = 1
scope_tag no_scope = 2

pub scope_tag_iff : (a b : IdempotencyScope) → ((scope_tag a == scope_tag b) ≡ true) ↔ (a ≡ b)
scope_tag_iff a b = ground arith

instance abbrev pub scope_eq : Eq IdempotencyScope
scope_eq = record { beq = λ a b. scope_tag a == scope_tag b; beq_iff = scope_tag_iff }

unfoldable pub valid_idempotency_scope : IdempotencyScope → Bool
valid_idempotency_scope s = s == create_directory || s == create_upload

abbrev pub scope_text : IdempotencyScope → String
scope_text create_directory = "create_directory"
scope_text create_upload = "create_upload"
scope_text no_scope = ""

pub data IdempotencyState : Type 0 where
  pending completed no_state : IdempotencyState

abbrev pub idempotency_state_tag : IdempotencyState → ℕ
idempotency_state_tag pending = 0
idempotency_state_tag completed = 1
idempotency_state_tag no_state = 2

pub idempotency_state_tag_iff :
    (a b : IdempotencyState)
    → ((idempotency_state_tag a == idempotency_state_tag b) ≡ true) ↔ (a ≡ b)
idempotency_state_tag_iff a b = ground arith

instance abbrev pub idempotency_state_eq : Eq IdempotencyState
idempotency_state_eq = record {
  beq = λ a b. idempotency_state_tag a == idempotency_state_tag b;
  beq_iff = idempotency_state_tag_iff;
}

pub record IdempotencyRequest : Type 0 where
  pub identity : Identity
  pub scope : IdempotencyScope
  pub key_hash : String
  pub request_digest : String
  pub claim_token : String
  pub locked_until : ℕ
  pub expires_at : ℕ
  pub now : ℕ

pub record IdempotencyRecord : Type 0 where
  pub identity : Identity
  pub scope : IdempotencyScope
  pub key_hash : String
  pub request_digest : String
  pub state : IdempotencyState
  pub claim_token : String
  pub resource_id : String
  pub locked_until : ℕ
  pub expires_at : ℕ
  pub created_at : ℕ
  pub updated_at : ℕ
