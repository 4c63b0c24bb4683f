-- ===== src/Service/Creation/Done.antt =====
-- internal/drive/service.go: a directory whose creation is recorded as completed.
use asteria_drive.Prelude.{ℕ, String, some, ◌<◌, ◌≡◌, refl, arith, string_eq, str_beq_iff}
use asteria_drive.Dict.{get, delete}
use asteria_drive.Dict.Laws.{get-put_self}
use asteria_drive.Result.{ok}
use asteria_drive.Validation.{validate_idempotency_request}
use asteria_drive.Types.Node.{Node, CreateDirectoryCommand, directory}
use asteria_drive.Types.Idempotency.{IdempotencyRequest, IdempotencyRecord, completed}
use asteria_drive.Memory.State.{Repository}
use asteria_drive.Memory.Audit.{CallContext}
use asteria_drive.Memory.Audit.Log.{audited-ok}
use asteria_drive.Memory.Idempotency.{
  claim_idempotency, complete_idempotency, idempotency_key, completed_claim,
}
use asteria_drive.Memory.Namespace
use asteria_drive.Memory.Namespace.{new_directory, created_event, store_node}

-- The request has been completed, with a directory that is still there.
pub record IsDone (r : Repository) (q : IdempotencyRequest) (node : Node) : Type 0 where
  pub claim : IdempotencyRecord
  pub recorded : get r.idempotency (idempotency_key q) ≡ some claim
  pub is_completed : claim.state ≡ completed
  pub names_node : claim.resource_id ≡ node.id
  pub same_digest : claim.request_digest ≡ q.request_digest
  pub stored : get r.nodes node.id ≡ some node
  pub is_directory : node.kind ≡ directory
  pub same_tenant : node.tenant_id ≡ q.identity.tenant_id

complete-stored :
    (q : IdempotencyRequest) (r : Repository) (c : IdempotencyRecord) (id : String) (now : ℕ)
    → get r.idempotency (idempotency_key q) ≡ some c
    → (complete_idempotency (some q) id now r).0 ≡ ok tt
    → (get (complete_idempotency (some q) id now r).1.idempotency (idempotency_key q)
        ≡ some (completed_claim c id now))
unfolding complete_idempotency
complete-stored q r c id now g h =
    ground (arith, g, h, get-put_self r.idempotency (idempotency_key q) (completed_claim c id now))

create_directory_done :
    (ctx : CallContext) (command : CreateDirectoryCommand) (q : IdempotencyRequest) (r : Repository)
    (node : Node)
    → command.idempotency ≡ some q
    → (Namespace.create_directory ctx command r).0 ≡ ok node
    → (node ≡ new_directory command)
      × ((complete_idempotency (some q) command.id command.now r).0 ≡ ok tt)
      × (get (Namespace.create_directory ctx command r).1.nodes command.id
          ≡ some (new_directory command))
      × ((Namespace.create_directory ctx command r).1.idempotency
          ≡ (complete_idempotency (some q) command.id command.now r).1.idempotency)
unfolding Namespace.create_directory
create_directory_done ctx command q r node keyed h =
    let r' = (complete_idempotency (some q) command.id command.now r).1 in
    ground (
      arith,
      keyed,
      h,
      audited-ok ctx (created_event command)
          (λ (s : Repository). record s { nodes = delete s.nodes command.id })
          (new_directory command) node (store_node (new_directory command) r'),
      get-put_self r'.nodes command.id (new_directory command),
    )

pub create_directory-IsDone :
    (ctx : CallContext) (command : CreateDirectoryCommand) (q : IdempotencyRequest) (r : Repository)
    (node : Node) (c : IdempotencyRecord)
    → command.idempotency ≡ some q
    → command.identity.tenant_id ≡ q.identity.tenant_id
    → get r.idempotency (idempotency_key q) ≡ some c
    → c.request_digest ≡ q.request_digest
    → (Namespace.create_directory ctx command r).0 ≡ ok node
    → IsDone (Namespace.create_directory ctx command r).1 q node
create_directory-IsDone ctx command q r node c keyed tenant g digest h =
    let (node_is, finished, there, left) = create_directory_done ctx command q r node keyed h in
    let now_completed = complete-stored q r c command.id command.now g finished in
    record {
      claim = completed_claim c command.id command.now;
      recorded = rw left now_completed;
      is_completed = refl;
      names_node = rw node_is refl;
      same_digest = digest;
      stored = rw node_is there;
      is_directory = rw node_is refl;
      same_tenant = rw node_is tenant;
    }

-- A claim for a request that is done already is answered with what was recorded.
pub claim_again :
    (p : IdempotencyRequest) (r : Repository) (node : Node) (d : IsDone r p node)
    → validate_idempotency_request p ≡ ok tt
    → p.now < d.claim.expires_at
    → claim_idempotency p r ≡ (ok d.claim, r)
unfolding claim_idempotency
claim_again p r node d valid live = ground (
  arith,
  d.recorded,
  d.is_completed,
  d.same_digest,
  valid,
  str_beq_iff d.claim.request_digest p.request_digest,
)
