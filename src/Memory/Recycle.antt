-- ===== src/Memory/Recycle.antt =====
-- internal/memory/repository.go: the recycle bin, its restore, and the purge with its blobs.
pub mod Hidden
pub mod Purge
use asteria_drive.Prelude.{
  ℕ, zero, suc, String, Bool, true, false, Option, none, some, List, [], ◌∷◌, ◌++◌, ◌*◌, ◌^◌, ◌&&◌,
  ◌||◌, ltb, not, ◌==◌, string_eq, length, filter, any, map, sort_by, truncate, if◌then◌else◌,
}
use asteria_drive.Prelude.Int.{ℤ, pos, int_eq, inc64}
use asteria_drive.Dict.{Dict, get, get_or, put, values}
use asteria_drive.Result.{Result, ok, err, ErrorCode}
use asteria_drive.Types.Access.{Identity, no_tenant}
use asteria_drive.Types.Group.{AuditEvent}
use asteria_drive.Types.Node
use asteria_drive.Types.Node.{
  Node, kind_eq, node_status_eq, blob_status_eq, directory, CursorPosition, RecycleEntry, PurgePlan,
  no_node, Blob, FileVersion, no_blob, pending_delete, deleted,
}
use asteria_drive.Memory.State.{
  Repository, Outcome, accept, reject, name_exists, visible, after_position, node_less, no_lease,
  active_node,
}
use asteria_drive.Memory.Audit.{CallContext, audit_event, audited, keep}
use asteria_drive.Memory.Upload.{has_directory}

abbrev pub is_child_of : String → String → Node → Bool
is_child_of tenant_id parent_id n =
    n.tenant_id == tenant_id && n.parent_id == parent_id && visible n

-- The nodes that the inner loop of `activeSubtree` appends for one entry.
unfoldable pub children : Dict String Node → String → String → List String
children nodes tenant_id id = map (λ n. n.id) (filter (is_child_of tenant_id id) (values nodes))

-- The outer loop: `done` holds the entries up to the index, the queue those behind it.
unfoldable pub subtree_from :
    ℕ → Dict String Node → String → List String → List String → List String
subtree_from fuel nodes tenant_id done [] = done
subtree_from zero nodes tenant_id done (id ∷ queue) = done
subtree_from (suc fuel) nodes tenant_id done (id ∷ queue) =
    subtree_from fuel nodes tenant_id (done ++ id ∷ []) (queue ++ children nodes tenant_id id)

-- `activeSubtree`, for at most as many rounds as there are nodes, and one more for the root.
unfoldable pub active_subtree : Repository → String → String → List String
unfolding subtree_from children
active_subtree r root_id tenant_id =
    subtree_from (suc (length r.nodes)) r.nodes tenant_id [] (root_id ∷ [])

-- `trashedSubtree`
unfoldable pub trashed_subtree : Repository → String → String → List String
trashed_subtree r root_id tenant_id =
    map (λ n. n.id)
      (filter (λ n. n.tenant_id == tenant_id && n.trashed_root_id == root_id) (values r.nodes))

-- `for _, id := range ids { child := r.nodes[id]; …; r.nodes[id] = child }`
unfoldable pub for_each_node :
    (String → Node → Node) → List String → Dict String Node → Dict String Node
for_each_node f [] nodes = nodes
for_each_node f (id ∷ ids) nodes =
    for_each_node f ids (put nodes id (f id (get_or no_node nodes id)))

-- The body of the loop of `Recycle`.
abbrev pub trash : String → ℕ → String → Node → Node
trash root_id now id child =
    if id == root_id
    then record child {
      trashed_root_id = root_id;
      updated_at = now;
      status = Node.trashed;
      original_parent_id = child.parent_id;
      revision = inc64 child.revision;
      deleted_at = some now;
    }
    else record child { trashed_root_id = root_id; updated_at = now }

abbrev pub node_event : Identity → String → String → ℕ → AuditEvent
node_event identity action node_id now =
    audit_event identity.tenant_id identity.principal_id action "node" node_id now []

unfoldable pub recycle : CallContext → Identity → String → ℤ → ℕ → Repository → Outcome (Unit {0})
recycle ctx identity node_id revision now r = elim (get r.nodes node_id) [
  | none ↦ reject ErrorCode.not_found r
  | some n ↦
      if not (n.tenant_id == identity.tenant_id)
      then reject ErrorCode.not_found r
      else if (get_or no_tenant r.tenants identity.tenant_id).root_node_id == node_id
      then reject ErrorCode.invalid_request r
      else if n.status == Node.trashed && n.trashed_root_id == n.id
      then accept tt r
      else if not (visible n)
      then reject ErrorCode.not_found r
      else if not (n.revision == revision)
      then reject ErrorCode.revision_mismatch r
      else audited ctx (node_event identity "node.recycled" node_id now) keep tt (record r {
        nodes = for_each_node (trash n.id now) (active_subtree r n.id identity.tenant_id) r.nodes;
      })
]

abbrev deletion_time : Option ℕ → ℕ
deletion_time none = 0
deletion_time (some t) = t

abbrev recycle_entry : Node → RecycleEntry
recycle_entry n = record {
  node = n;
  original_parent_id = n.original_parent_id;
  deleted_at = deletion_time n.deleted_at;
}

unfoldable pub list_recycle : Identity → CursorPosition → ℕ → Repository → List RecycleEntry × Bool
list_recycle identity after limit r =
    let items =
      sort_by (λ a b. node_less a.node b.node)
        (map recycle_entry (
          filter
            (λ n.
              n.tenant_id == identity.tenant_id
              && n.status == Node.trashed
              && n.trashed_root_id == n.id
              && after_position n after)
            (values r.nodes))) in
    (truncate limit items, ltb limit (length items))

-- The body of the loop of `Restore`.
abbrev pub untrash : String → ℕ → String → Node → Node
untrash root_id now id child =
    if id == root_id
    then record child {
      trashed_root_id = "";
      updated_at = now;
      status = Node.active;
      parent_id = child.original_parent_id;
      original_parent_id = "";
      deleted_at = none;
      revision = inc64 child.revision;
    }
    else record child { trashed_root_id = ""; updated_at = now }

-- The node is the root of an entry of the recycle bin.
unfoldable pub is_recycle_root : Identity → Node → Bool
is_recycle_root identity n =
    n.tenant_id == identity.tenant_id && n.status == Node.trashed && n.trashed_root_id == n.id

-- The node that `Restore` returns is the root as the loop leaves it.
unfoldable pub restore : CallContext → Identity → String → ℤ → ℕ → Repository → Outcome Node
restore ctx identity node_id revision now r = elim (get r.nodes node_id) [
  | none ↦ reject ErrorCode.not_found r
  | some n ↦
      if not (is_recycle_root identity n)
      then reject ErrorCode.not_found r
      else if not (n.revision == revision)
      then reject ErrorCode.revision_mismatch r
      else if not (has_directory r identity.tenant_id n.original_parent_id)
          || name_exists r identity.tenant_id n.original_parent_id n.normalized_name n.id
      then reject ErrorCode.restore_conflict r
      else let nodes' =
          for_each_node (untrash n.id now) (trashed_subtree r n.id identity.tenant_id) r.nodes in
        audited ctx (node_event identity "node.restored" node_id now) keep (get_or n nodes' n.id)
          (record r { nodes = nodes' })
]

abbrev pub contains : List String → String → Bool
contains ids id = any (λ x. x == id) ids

abbrev purge_mark : ℕ → String → Node → Node
purge_mark now id child = record child { status = Node.purging; updated_at = now }

-- `blobIDs`: the blobs of the versions inside the subtree, each once.
unfoldable pub blobs_inside : String → List String → List FileVersion → List String
blobs_inside tenant_id subtree [] = []
blobs_inside tenant_id subtree (v ∷ vs) =
    let rest = blobs_inside tenant_id subtree vs in
    if v.tenant_id == tenant_id && contains subtree v.node_id && not (contains rest v.blob_id)
    then v.blob_id ∷ rest
    else rest

unfoldable pub referenced_outside : List String → List FileVersion → String → Bool
referenced_outside subtree versions blob_id =
    any (λ v. v.blob_id == blob_id && not (contains subtree v.node_id)) versions

abbrev pub condemned : Blob → Blob
condemned b = record b { status = pending_delete; reference_count = pos 0 }

-- The loop over `blobIDs`: the blobs as it leaves them, and those of the plan.
unfoldable pub condemn :
    List String → List FileVersion → List String → Dict String Blob → Dict String Blob × List Blob
condemn subtree versions [] blobs = (blobs, [])
condemn subtree versions (id ∷ ids) blobs =
    let b = get_or no_blob blobs id in
    elim (not (referenced_outside subtree versions id) && not (b.status == deleted)) [
      | true ↦
          let (blobs', planned) = condemn subtree versions ids (put blobs id (condemned b)) in
          (blobs', condemned b ∷ planned)
      | false ↦ condemn subtree versions ids blobs
    ]

unfoldable pub prepare_purge : Identity → String → ℤ → ℕ → Repository → Outcome PurgePlan
prepare_purge identity node_id revision now r = elim (get r.nodes node_id) [
  | none ↦ reject ErrorCode.not_found r
  | some n ↦
      if not (n.tenant_id == identity.tenant_id)
        || (not (n.status == Node.trashed) && not (n.status == Node.purging))
        || not (n.trashed_root_id == n.id)
      then reject ErrorCode.not_found r
      else if not (n.revision == revision)
      then reject ErrorCode.revision_mismatch r
      else let subtree = trashed_subtree r n.id identity.tenant_id in
        let versions = values r.versions in
        let (blobs', planned) =
          condemn subtree versions (blobs_inside identity.tenant_id subtree versions) r.blobs in
        accept (record { root_id = n.id; blobs = planned })
          (record r { nodes = for_each_node (purge_mark now) subtree r.nodes; blobs = blobs' })
]

-- The loop of `FinishPurge` over the plan's blobs.
unfoldable pub delete_planned : Identity → ℕ → List Blob → Dict String Blob → Dict String Blob
delete_planned identity now [] blobs = blobs
delete_planned identity now (planned ∷ rest) blobs =
    delete_planned identity now rest (elim (get blobs planned.id) [
      | none ↦ blobs
      | some b ↦
          if b.tenant_id == identity.tenant_id && b.status == pending_delete
          then put blobs b.id (record b { status = deleted; deleted_at = some now })
          else blobs
    ])

-- `time.Date(9999, time.January, 1, …)`, in nanoseconds since the zero time.
abbrev pub never : ℕ
never = 315506361600 * 10 ^ 9

unfoldable pub finish_purge :
    CallContext → Identity → PurgePlan → ℕ → Repository → Outcome (Unit {0})
finish_purge ctx identity plan now r = elim (get r.nodes plan.root_id) [
  | none ↦ reject ErrorCode.not_found r
  | some root ↦
      if not (root.tenant_id == identity.tenant_id) || not (root.status == Node.purging)
      then reject ErrorCode.not_found r
      else audited ctx (node_event identity "node.purged" plan.root_id now) keep tt (record r {
        blobs = delete_planned identity now plan.blobs r.blobs;
        recycle_maintenance =
            put r.recycle_maintenance plan.root_id
              (record (get_or no_lease r.recycle_maintenance plan.root_id) {
                owner = "";
                until = 0;
                not_before = never;
                error_code = "";
              });
      })
]
