-- ===== src/Memory/State.antt =====
-- internal/memory/repository.go: the state, its empty value, and the lookups that the methods share.
use Prim.Native.String.{◌++◌ as append}
use asteria_drive.Prelude.{
  ℕ, String, Bool, false, Option, none, some, List, [], ◌&&◌, ◌||◌, ◌==◌, string_eq, not, filter,
  length, if◌then◌else◌,
}
use asteria_drive.Prelude.Int.{ℤ, pos}
use asteria_drive.Dict.{Dict, empty, get, values, any_entry}
use asteria_drive.Result.{DriveError, Result, ok, err, ErrorCode}
use asteria_drive.Text.{str_ltb}
use asteria_drive.Types.Access.{
  Identity, owner, role_eq, active, member_status_eq, PrincipalRecord, Tenant,
}
use asteria_drive.Types.Idempotency.{IdempotencyRecord}
use asteria_drive.Types.Invitation.{TenantInvitation}
use asteria_drive.Types.Group.{TenantGroup, NodeAclEntry, AuditEvent}
use asteria_drive.Types.Node
use asteria_drive.Types.Node.{Node, Blob, FileVersion, CursorPosition, node_status_eq}
use asteria_drive.Types.Upload.{UploadSession, CompletedPart, PartSignature}

pub record MaintenanceLease : Type 0 where
  pub owner : String
  pub until : ℕ
  pub not_before : ℕ
  pub attempts : ℤ
  pub error_code : String
  pub cleanup_pending : Bool

-- `maintenanceLease{}`, read where no lease is recorded.
abbrev pub no_lease : MaintenanceLease
no_lease = record {
  owner = "";
  until = 0;
  not_before = 0;
  attempts = pos 0;
  error_code = "";
  cleanup_pending = false;
}

pub record Repository : Type 0 where
  pub tenants : Dict String Tenant
  pub principals : Dict String PrincipalRecord
  pub members : Dict String PrincipalRecord
  pub nodes : Dict String Node
  pub blobs : Dict String Blob
  pub versions : Dict String FileVersion
  pub uploads : Dict String UploadSession
  pub parts : Dict String (List CompletedPart)
  pub part_signatures : Dict String (Dict ℤ PartSignature)
  pub idempotency : Dict String IdempotencyRecord
  pub upload_maintenance : Dict String MaintenanceLease
  pub recycle_maintenance : Dict String MaintenanceLease
  pub invitations : Dict String TenantInvitation
  pub invitation_tokens : Dict String String
  pub groups : Dict String TenantGroup
  pub group_members : Dict String (Unit {0})
  pub acls : Dict String NodeAclEntry
  pub audit : List AuditEvent
  pub audit_sequence : ℤ
  pub ready_err : Option DriveError

abbrev pub new_repository : Repository
new_repository = record {
  tenants = empty;
  principals = empty;
  members = empty;
  nodes = empty;
  blobs = empty;
  versions = empty;
  uploads = empty;
  parts = empty;
  part_signatures = empty;
  idempotency = empty;
  upload_maintenance = empty;
  recycle_maintenance = empty;
  invitations = empty;
  invitation_tokens = empty;
  groups = empty;
  group_members = empty;
  acls = empty;
  audit = [];
  audit_sequence = pos 0;
  ready_err = none;
}

-- What a method that may write returns: its result and the repository that it leaves.
abbrev pub Outcome : Type 0 → Type 0
Outcome A = Result A × Repository

abbrev pub reject : {A : Type 0} → ErrorCode → Repository → Outcome A
reject c r = (err (record { code = c; retryable = false }), r)

abbrev pub accept : {A : Type 0} → A → Repository → Outcome A
accept a r = (ok a, r)

unfoldable pub visible : Node → Bool
visible n = n.status == Node.active && n.trashed_root_id == ""

-- `activeNode`
unfoldable pub active_node : Repository → String → String → Option Node
active_node r tenant_id id = elim (get r.nodes id) [
  | none ↦ none
  | some n ↦ if n.tenant_id == tenant_id && visible n then some n else none
]

-- `uploadFor`
unfoldable pub upload_for : Repository → Identity → String → Option UploadSession
upload_for r identity id = elim (get r.uploads id) [
  | none ↦ none
  | some s ↦ if s.tenant_id == identity.tenant_id then some s else none
]

unfoldable pub clashes : String → String → String → String → Node → Bool
clashes tenant_id parent_id normalized_name except_id n =
    not (n.id == except_id)
    && n.tenant_id == tenant_id
    && n.parent_id == parent_id
    && n.normalized_name == normalized_name
    && visible n

-- `nameExists`
unfoldable pub name_exists : Repository → String → String → String → String → Bool
name_exists r tenant_id parent_id normalized_name except_id =
    any_entry (λ _ n. clashes tenant_id parent_id normalized_name except_id n) r.nodes

unfoldable pub after_position : Node → CursorPosition → Bool
after_position n after =
    after.id == ""
    || str_ltb after.name n.normalized_name
    || (n.normalized_name == after.name && str_ltb after.id n.id)

unfoldable pub node_less : Node → Node → Bool
node_less a b =
    str_ltb a.normalized_name b.normalized_name
    || (a.normalized_name == b.normalized_name && str_ltb a.id b.id)

unfoldable pub principal_key : String → String → String
principal_key issuer subject = append issuer (append "\0" subject)

unfoldable pub member_key : String → String → String
member_key tenant_id principal_id = append tenant_id (append "\0" principal_id)

unfoldable pub after_member_position : PrincipalRecord → CursorPosition → Bool
after_member_position m after = after.id == "" || str_ltb after.name m.identity.principal_id

unfoldable pub is_other_active_owner : String → String → PrincipalRecord → Bool
is_other_active_owner tenant_id exclude_principal_id m =
    m.identity.tenant_id == tenant_id
    && not (m.identity.principal_id == exclude_principal_id)
    && m.role == owner
    && m.status == active

unfoldable pub active_owner_count : Repository → String → String → ℕ
active_owner_count r tenant_id exclude_principal_id =
    length (filter (is_other_active_owner tenant_id exclude_principal_id) (values r.members))
