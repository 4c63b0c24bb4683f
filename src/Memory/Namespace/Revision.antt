-- ===== src/Memory/Namespace/Revision.antt =====
-- internal/memory/repository.go: the revision that `UpdateNode` expects.
use asteria_drive.Prelude.{
  ◌≡◌, String, true, false, some, ◌==◌, arith, string_eq, none, Option-cases, inl, inr, sym,
  str_beq_iff,
}
use asteria_drive.Prelude.Int.{ℤ, int_eq, inc64, inc64_ne}
use asteria_drive.Dict.{get, get_or, put}
use asteria_drive.Dict.Laws.{get-put_self}
use asteria_drive.Result.{ok, ErrorCode}
use asteria_drive.Types.Node.{Node, UpdateNodeCommand}
use asteria_drive.Types.Access.{no_tenant}
use asteria_drive.Memory.State.{Repository, reject, active_node, visible}
use asteria_drive.Memory.Audit.{CallContext, append_audit, audited}
use asteria_drive.Memory.Namespace.{update_node, updated}
use asteria_drive.Memory.Namespace.Names.{IsNamespace}
use asteria_drive.Memory.Namespace.Writes.{active_node-eq-some}

-- A successful update found its node at the revision that the command expects, and stored it again.
update_node_ok :
    (ctx : CallContext) (c : UpdateNodeCommand) (r : Repository) (m n : Node)
    → active_node r c.identity.tenant_id c.node_id ≡ some m
    → (update_node ctx c r).0 ≡ ok n
    → ((m.revision == c.expected_revision) ≡ true)
      × (((get_or no_tenant r.tenants c.identity.tenant_id).root_node_id == m.id) ≡ false)
      × ((update_node ctx c r).1.nodes ≡ put r.nodes (updated c m).id (updated c m))
      × ((update_node ctx c r).1.tenants ≡ r.tenants)
unfolding update_node audited append_audit
update_node_ok ctx c r m n found h = ground arith

updated_kept :
    (c : UpdateNodeCommand) (m : Node)
    → ((updated c m).id ≡ m.id)
      × ((updated c m).tenant_id ≡ m.tenant_id)
      × (visible (updated c m) ≡ visible m)
      × ((updated c m).revision ≡ inc64 m.revision)
unfolding updated visible
updated_kept c m = ground arith

active_node_of :
    (r : Repository) (t id : String) (n : Node)
    → get r.nodes id ≡ some n
    → n.tenant_id ≡ t
    → visible n ≡ true
    → active_node r t id ≡ some n
unfolding active_node
active_node_of r t id n g e v = ground (arith, str_beq_iff n.tenant_id t)

stale :
    (ctx : CallContext) (d : UpdateNodeCommand) (r : Repository) (n : Node)
    → active_node r d.identity.tenant_id d.node_id ≡ some n
    → ((get_or no_tenant r.tenants d.identity.tenant_id).root_node_id == n.id) ≡ false
    → (n.revision == d.expected_revision) ≡ false
    → update_node ctx d r ≡ reject ErrorCode.revision_mismatch r
unfolding update_node
stale ctx d r n found plain other = ground arith

revised : (r c d r' : ℤ) → (r == c) ≡ true → d ≡ c → r' ≡ inc64 r → (r' == d) ≡ false
revised r c d r' at_rev ev ur = ground (arith, int_eq.beq_iff r c, int_eq.beq_iff r' d, inc64_ne r)

missing :
    (ctx : CallContext) (c : UpdateNodeCommand) (r : Repository) (n : Node)
    → active_node r c.identity.tenant_id c.node_id ≡ none
    → (update_node ctx c r).0 ≡ ok n
    → ⊥
unfolding update_node
missing ctx c r n miss h = ground arith

-- In an orderly namespace, after a successful update of a node every update of it that expects the
-- revision that the first one expected is refused with revision_mismatch and changes nothing.
pub update_node_stale :
    (ctx ctx' : CallContext) (c d : UpdateNodeCommand) (r : Repository) (n : Node)
    → IsNamespace r.nodes
    → (update_node ctx c r).0 ≡ ok n
    → d.node_id ≡ c.node_id
    → d.identity.tenant_id ≡ c.identity.tenant_id
    → d.expected_revision ≡ c.expected_revision
    → update_node ctx' d (update_node ctx c r).1
      ≡ reject ErrorCode.revision_mismatch (update_node ctx c r).1
update_node_stale ctx ctx' c d r n ns h en et ev =
    elim (Option-cases (active_node r c.identity.tenant_id c.node_id)) [
      | inl miss ↦ absurd (missing ctx c r n miss h)
      | inr (m, found) ↦
          let (at_rev, plain, stored, same) = update_node_ok ctx c r m n found h in
          let (ei, ut, uv, ur) = updated_kept c m in
          let (g, mt, mv) = active_node-eq-some r c.identity.tenant_id c.node_id m found in
          let key : (updated c m).id ≡ d.node_id =
            let e = ns.keyed c.node_id m g in cc (e, ei, en) in
          stale ctx' d (update_node ctx c r).1 (updated c m)
            (active_node_of (update_node ctx c r).1 d.identity.tenant_id d.node_id (updated c m)
              (rw (stored, sym key) (get-put_self r.nodes (updated c m).id (updated c m)))
              (cc (ut, mt, et)) (cc (uv, mv)))
            (cc (plain, same, et, ei))
            (revised m.revision c.expected_revision d.expected_revision (updated c m).revision
              at_rev ev ur)
    ]
