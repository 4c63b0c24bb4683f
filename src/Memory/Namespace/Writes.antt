-- ===== src/Memory/Namespace/Writes.antt =====
-- internal/memory/repository.go: what `CreateDirectory`, `UpdateNode` and `CommitUpload` do to the names.
use asteria_drive.Prelude.{
  ◌≡◌, ◌≢◌, String, true, false, none, some, arith, ◌⊎◌, refl, inl, inr, sym, string_eq,
  str_beq_iff, Option-cases,
}
use asteria_drive.Dict.{get, put, delete}
use asteria_drive.Types.Node.{Node, CreateDirectoryCommand, UpdateNodeCommand}
use asteria_drive.Types.Upload.{CommitUploadCommand, UploadSession}
use asteria_drive.Memory.State.{Repository, name_exists, visible, active_node, upload_for}
use asteria_drive.Memory.Audit.{CallContext, append_audit, audited}
use asteria_drive.Memory.Idempotency.{complete_idempotency}
use asteria_drive.Memory.Upload.{commit_upload, fail_commit}
use asteria_drive.Memory.Namespace.{create_directory, new_directory, update_node, updated, or_value}
use asteria_drive.Memory.Namespace.Names.{IsNamespace, put-IsNamespace, delete-IsNamespace}

create_directory_nodes :
    (ctx : CallContext) (c : CreateDirectoryCommand) (r : Repository)
    → ((create_directory ctx c r).1.nodes ≡ r.nodes)
      ⊎ ((name_exists r c.identity.tenant_id c.parent_id c.normalized_name "" ≡ false)
          × (((create_directory ctx c r).1.nodes ≡ put r.nodes c.id (new_directory c))
              ⊎ ((create_directory ctx c r).1.nodes
                  ≡ delete (put r.nodes c.id (new_directory c)) c.id)))
unfolding create_directory audited append_audit complete_idempotency
create_directory_nodes ctx c r = ground arith

-- A creation of a directory with an identifier, whether it succeeds or not, keeps the live names of
-- each directory apart.
pub create_directory-IsNamespace :
    (ctx : CallContext) (c : CreateDirectoryCommand) (r : Repository)
    → c.id ≢ ""
    → IsNamespace r.nodes
    → IsNamespace (create_directory ctx c r).1.nodes
create_directory-IsNamespace ctx c r e h = go (create_directory_nodes ctx c r)
  where
    go :
        ((create_directory ctx c r).1.nodes ≡ r.nodes)
          ⊎ ((name_exists r c.identity.tenant_id c.parent_id c.normalized_name "" ≡ false)
              × (((create_directory ctx c r).1.nodes ≡ put r.nodes c.id (new_directory c))
                  ⊎ ((create_directory ctx c r).1.nodes
                      ≡ delete (put r.nodes c.id (new_directory c)) c.id)))
        → IsNamespace (create_directory ctx c r).1.nodes
    go (inl same) = rw same h
    go (inr (free, inl stored)) =
        rw stored (put-IsNamespace r (new_directory c) "" h e (inr refl) free)
    go (inr (free, inr undone)) = rw undone (
        delete-IsNamespace (put r.nodes c.id (new_directory c)) c.id
          (put-IsNamespace r (new_directory c) "" h e (inr refl) free))

pub active_node-eq-some :
    (r : Repository) (tenant_id id : String) (n : Node)
    → active_node r tenant_id id ≡ some n
    → (get r.nodes id ≡ some n) × (n.tenant_id ≡ tenant_id) × (visible n ≡ true)
unfolding active_node
active_node-eq-some r tenant_id id n h = grind (arith, str_beq_iff)

module _ (ctx : CallContext) (c : UpdateNodeCommand) (r : Repository) where
  pub update_node_nodes :
      (n : Node)
      → active_node r c.identity.tenant_id c.node_id ≡ some n
      → ((update_node ctx c r).1.nodes ≡ r.nodes)
        ⊎ ((name_exists r c.identity.tenant_id
                (or_value c.parent_id n.parent_id)
                (or_value c.normalized_name n.normalized_name)
                n.id
              ≡ false)
            × ((update_node ctx c r).1.nodes ≡ put r.nodes (updated c n).id (updated c n)))
  unfolding update_node audited append_audit
  update_node_nodes n found = ground arith

  updated_fields :
      (n : Node)
      → (c.display_name ≡ none → c.normalized_name ≡ none)
      → ((updated c n).id ≡ n.id)
        × ((updated c n).tenant_id ≡ n.tenant_id)
        × ((updated c n).parent_id ≡ or_value c.parent_id n.parent_id)
        × ((updated c n).normalized_name ≡ or_value c.normalized_name n.normalized_name)
  unfolding updated
  updated_fields n paired = ground arith

  -- A rename or a move, whether it succeeds or not, keeps the live names of each directory apart, when
  -- the command gives the normalized name only together with the name to show.
  pub update_node-IsNamespace :
      (c.display_name ≡ none → c.normalized_name ≡ none)
      → IsNamespace r.nodes
      → IsNamespace (update_node ctx c r).1.nodes
  update_node-IsNamespace paired h =
      elim (Option-cases (active_node r c.identity.tenant_id c.node_id)) [
        | inl miss ↦ rw (missing miss) h
        | inr (n, found) ↦ go n found (update_node_nodes n found)
      ]
    where
      missing :
          active_node r c.identity.tenant_id c.node_id ≡ none
          → (update_node ctx c r).1.nodes ≡ r.nodes
      missing miss = unfold update_node in ground arith

      go :
          (n : Node)
          → active_node r c.identity.tenant_id c.node_id ≡ some n
          → ((update_node ctx c r).1.nodes ≡ r.nodes)
            ⊎ ((name_exists r c.identity.tenant_id
                    (or_value c.parent_id n.parent_id)
                    (or_value c.normalized_name n.normalized_name)
                    n.id
                  ≡ false)
                × ((update_node ctx c r).1.nodes ≡ put r.nodes (updated c n).id (updated c n)))
          → IsNamespace (update_node ctx c r).1.nodes
      go n found (inl same) = rw same h
      go n found (inr (free, stored)) =
          let (ei, et, ep, en) = updated_fields n paired in
          let (g, t, v) = active_node-eq-some r c.identity.tenant_id c.node_id n found in
          rw stored (
            put-IsNamespace r (updated c n) n.id h
              (λ q. ground (arith, h.keyed c.node_id n g, h.no_empty)) (inl (sym ei))
              (cc (free, et, t, ep, en)))

-- A commit of a found session whose command has a node with an identifier and with the tenant, parent
-- and name of the session, whether it succeeds or not, keeps the live names of each directory apart.
pub commit_upload-IsNamespace :
    (ctx : CallContext) (c : CommitUploadCommand) (r : Repository) (s : UploadSession)
    → upload_for r c.identity c.session_id ≡ some s
    → c.node.id ≢ ""
    → c.node.tenant_id ≡ s.tenant_id
    → c.node.parent_id ≡ s.parent_id
    → c.node.normalized_name ≡ s.normalized_name
    → IsNamespace r.nodes
    → IsNamespace (commit_upload ctx c r).1.nodes
commit_upload-IsNamespace ctx c r s found e et ep en h = go written
  where
    Written : Type 0
    Written =
        ((commit_upload ctx c r).1.nodes ≡ r.nodes)
        ⊎ ((name_exists r s.tenant_id s.parent_id s.normalized_name "" ≡ false)
            × ((commit_upload ctx c r).1.nodes ≡ put r.nodes c.node.id c.node))

    written : Written
    written = unfold commit_upload fail_commit audited append_audit in ground arith

    go : Written → IsNamespace (commit_upload ctx c r).1.nodes
    go (inl same) = rw same h
    go (inr (free, stored)) =
        rw stored (put-IsNamespace r c.node "" h e (inr refl) (rw (et, ep, en) free))
