-- ===== src/Memory/Namespace.antt =====
-- internal/memory/repository.go: directories, lookups, listings, renames and moves.
pub mod Names
pub mod Revision
pub mod Tree
pub mod Writes
use asteria_drive.Prelude.{
  ℕ, zero, suc, String, Bool, true, false, Option, none, some, List, [], ◌∷◌, ◌&&◌, ◌||◌, ltb, not,
  ◌==◌, string_eq, length, filter, sort_by, truncate, if◌then◌else◌,
}
use asteria_drive.Prelude.Int.{ℤ, pos, int_eq, inc64}
use asteria_drive.Dict.{Dict, get, get_or, put, delete, values}
use asteria_drive.Result.{Result, ok, err, fail, ErrorCode}
use asteria_drive.Types.Access.{Identity, no_tenant}
use asteria_drive.Types.Group.{AuditEvent}
use asteria_drive.Types.Node
use asteria_drive.Types.Node.{
  Node, kind_eq, kind_text, directory, CursorPosition, CreateDirectoryCommand, UpdateNodeCommand,
  no_node,
}
use asteria_drive.Memory.State.{
  Repository, Outcome, accept, reject, active_node, name_exists, visible, after_position, node_less,
}
use asteria_drive.Memory.Idempotency.{complete_idempotency}
use asteria_drive.Memory.Audit.{CallContext, audit_event, audited, keep}
use asteria_drive.Memory.Upload.{has_directory}

abbrev pub new_directory : CreateDirectoryCommand → Node
new_directory c = record no_node {
  id = c.id;
  tenant_id = c.identity.tenant_id;
  parent_id = c.parent_id;
  kind = directory;
  display_name = c.display_name;
  normalized_name = c.normalized_name;
  status = Node.active;
  revision = pos 1;
  created_at = c.now;
  updated_at = c.now;
}

abbrev pub created_event : CreateDirectoryCommand → AuditEvent
created_event c =
    audit_event c.identity.tenant_id c.identity.principal_id "node.created" "node" c.id c.now
      (("kind", kind_text directory) ∷ ("parent_id", c.parent_id) ∷ [])

abbrev pub store_node : Node → Repository → Repository
store_node n r = record r { nodes = put r.nodes n.id n }

-- An audit event that cannot be appended takes the node back, but not the completed claim.
unfoldable pub create_directory : CallContext → CreateDirectoryCommand → Repository → Outcome Node
create_directory ctx c r =
    if not (has_directory r c.identity.tenant_id c.parent_id)
    then reject ErrorCode.not_found r
    else if name_exists r c.identity.tenant_id c.parent_id c.normalized_name ""
    then reject ErrorCode.name_conflict r
    else let (completion, r') = complete_idempotency c.idempotency c.id c.now r in
      elim completion [
        | err e ↦ (err e, r')
        | ok _ ↦
            audited ctx (created_event c) (λ s. record s { nodes = delete s.nodes c.id })
              (new_directory c) (store_node (new_directory c) r')
      ]

unfoldable pub node : Identity → String → Bool → Repository → Result Node
node identity id include_trashed r = elim (get r.nodes id) [
  | none ↦ fail ErrorCode.not_found
  | some n ↦
      if not (n.tenant_id == identity.tenant_id) || (not include_trashed && not (visible n))
      then fail ErrorCode.not_found
      else ok n
]

-- The items of a page and whether more follow; `limit` is not negative.
unfoldable pub list_children :
    Identity → String → CursorPosition → ℕ → Repository → Result (List Node × Bool)
list_children identity parent_id after limit r = elim (get r.nodes parent_id) [
  | none ↦ fail ErrorCode.not_found
  | some parent ↦
      if not (parent.tenant_id == identity.tenant_id)
        || not (parent.kind == directory)
        || not (visible parent)
      then fail ErrorCode.not_found
      else let items = sort_by node_less (
          filter
            (λ n.
              n.tenant_id == identity.tenant_id
              && n.parent_id == parent_id
              && visible n
              && after_position n after)
            (values r.nodes)) in
        ok (truncate limit items, ltb limit (length items))
]

-- The loop of `isDescendant`, for at most `fuel` steps up.
unfoldable pub climbs_to : ℕ → Dict String Node → String → String → String → Bool
climbs_to zero nodes current ancestor_id tenant_id = false
climbs_to (suc fuel) nodes current ancestor_id tenant_id =
    if current == ""
    then false
    else if current == ancestor_id
    then true
    else elim (get nodes current) [
      | none ↦ false
      | some n ↦
          let rest = climbs_to fuel nodes n.parent_id ancestor_id tenant_id in
          if n.tenant_id == tenant_id then rest else false
    ]

-- `isDescendant`; one step for each node, and one for the root's missing parent, are enough.
unfoldable pub is_descendant : Repository → String → String → String → Bool
unfolding climbs_to
is_descendant r candidate_id ancestor_id tenant_id =
    climbs_to (suc (length r.nodes)) r.nodes candidate_id ancestor_id tenant_id

abbrev pub or_value : {A : Type 0} → Option A → A → A
or_value none a = a
or_value (some b) a = b

-- The checks of a move to `command.ParentID`, if one is given: an error, or `none`.
unfoldable pub move_error : UpdateNodeCommand → Node → Repository → Option ErrorCode
move_error c n r = elim c.parent_id [
  | none ↦ none
  | some target ↦
      if not (has_directory r c.identity.tenant_id target)
      then some ErrorCode.not_found
      else if n.kind == directory && is_descendant r target n.id c.identity.tenant_id
      then some ErrorCode.invalid_request
      else none
]

-- The node with the fields that the command gives. `command.NormalizedName` is given with
-- `command.DisplayName`; without it Go would panic here.
unfoldable pub updated : UpdateNodeCommand → Node → Node
updated c n =
    let named : Node = elim c.display_name [
      | none ↦ n
      | some display ↦ record n {
        display_name = display;
        normalized_name = or_value c.normalized_name n.normalized_name;
      }
    ] in
    record named {
      parent_id = or_value c.parent_id n.parent_id;
      revision = inc64 n.revision;
      updated_at = c.now;
    }

abbrev pub updated_event : UpdateNodeCommand → Node → AuditEvent
updated_event c n =
    audit_event c.identity.tenant_id c.identity.principal_id "node.updated" "node" n.id c.now
      (("parent_id", n.parent_id) ∷ [])

unfoldable pub update_node : CallContext → UpdateNodeCommand → Repository → Outcome Node
update_node ctx c r = elim (active_node r c.identity.tenant_id c.node_id) [
  | none ↦ reject ErrorCode.not_found r
  | some n ↦
      if (get_or no_tenant r.tenants c.identity.tenant_id).root_node_id == n.id
      then reject ErrorCode.invalid_request r
      else if not (n.revision == c.expected_revision)
      then reject ErrorCode.revision_mismatch r
      else elim (move_error c n r) [
        | some code ↦ reject code r
        | none ↦
            if name_exists r c.identity.tenant_id (or_value c.parent_id n.parent_id)
              (or_value c.normalized_name n.normalized_name) n.id
            then reject ErrorCode.name_conflict r
            else let n' = updated c n in audited ctx (updated_event c n') keep n' (store_node n' r)
      ]
]
