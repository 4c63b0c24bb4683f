-- ===== src/Memory/Acl/Grants.antt =====
-- internal/memory/governance.go: the entry that `SetNodeACL` stores.
use asteria_drive.Prelude.{
  ◌≡◌, ◌≢◌, String, Bool, true, none, some, [], ◌∷◌, arith, string_eq, str_beq_self, Option-cases,
  inl, inr, Eq,
}
use asteria_drive.Dict.{Dict, put, any_entry}
use asteria_drive.Result.{ok}
use asteria_drive.Types.Access.{Identity}
use asteria_drive.Types.Group.{
  principal, subject_eq, subject_tag_iff, NodeAclEntry, SetNodeAclCommand,
}
use asteria_drive.Memory.State.{Repository}
use asteria_drive.Memory.Audit.{CallContext, append_audit, audited}
use asteria_drive.Memory.Acl.{
  grants, concerns, role_level, find_entry, is_same_entry, new_entry, set_node_acl,
}
use asteria_drive.Memory.Acl.Levels.{IsGranted, here}

any_entry-put {ℓ} :
    {K V : Type ℓ} ⦃e : Eq K⦄ (p : K → V → Bool) (m : Dict K V) (k : K) (v : V)
    → p k v ≡ true
    → any_entry p (put m k v) ≡ true
unfolding any_entry put
any_entry-put p [] k v h = ground arith
any_entry-put p ((j, w) ∷ m) k v h = ground (arith, any_entry-put p m k v h)

find_entry-is_same_entry :
    (c : SetNodeAclCommand) (acls : Dict String NodeAclEntry) (id : String) (a : NodeAclEntry)
    → find_entry c acls ≡ some (id, a)
    → is_same_entry c a ≡ true
unfolding find_entry
find_entry-is_same_entry c [] id a h = ground arith
find_entry-is_same_entry c ((j, w) ∷ acls) id a h =
    ground (arith, find_entry-is_same_entry c acls id a)

-- The principal that the command names, in the command's tenant.
abbrev pub subject : SetNodeAclCommand → Identity
subject c = record { tenant_id = c.tenant_id; principal_id = c.subject_id }

new_entry-grants :
    (c : SetNodeAclCommand) (r : Repository)
    → c.subject_type ≡ principal
    → grants r (subject c) c.node_id (role_level c.role) (new_entry c) ≡ true
unfolding grants concerns
new_entry-grants c r t =
    ground (arith, str_beq_self c.tenant_id, str_beq_self c.node_id, str_beq_self c.subject_id)

changed_entry-grants :
    (c : SetNodeAclCommand) (r : Repository) (a : NodeAclEntry)
    → c.subject_type ≡ principal
    → is_same_entry c a ≡ true
    → grants r
        (subject c)
        c.node_id
        (role_level c.role)
        (record a { role = c.role; updated_at = c.now })
      ≡ true
unfolding grants concerns
changed_entry-grants c r a t h = ground (arith, subject_tag_iff a.subject_type c.subject_type)

set_node_acl_acls :
    (ctx : CallContext) (c : SetNodeAclCommand) (r : Repository) (entry : NodeAclEntry)
    → (set_node_acl ctx c r).0 ≡ ok entry
    → (find_entry c r.acls ≡ none → (set_node_acl ctx c r).1.acls ≡ put r.acls c.id (new_entry c))
      × ((id : String) (a : NodeAclEntry)
          → find_entry c r.acls ≡ some (id, a)
          → (set_node_acl ctx c r).1.acls
            ≡ put r.acls id (record a { role = c.role; updated_at = c.now }))
unfolding set_node_acl audited append_audit
set_node_acl_acls ctx c r entry h = ((λ e. ground arith), (λ id a e. ground arith))

-- After a successful setting of an entry for a principal, on a node with an identifier, that principal
-- is granted the level of the entry's role at the node.
pub set_node_acl-IsGranted :
    (ctx : CallContext) (c : SetNodeAclCommand) (r : Repository) (entry : NodeAclEntry)
    → (set_node_acl ctx c r).0 ≡ ok entry
    → c.subject_type ≡ principal
    → c.node_id ≢ ""
    → IsGranted (set_node_acl ctx c r).1 (subject c) (role_level c.role) c.node_id
set_node_acl-IsGranted ctx c r entry h t ne =
    let r' = (set_node_acl ctx c r).1 in
    let (fresh, kept) = set_node_acl_acls ctx c r entry h in
    here c.node_id ne (elim (Option-cases (find_entry c r.acls)) [
      | inl e ↦ rw (fresh e) (any_entry-put _ r.acls c.id (new_entry c) (new_entry-grants c r' t))
      | inr ((id, a), e) ↦ rw (kept id a e) (
          any_entry-put _ r.acls id _
            (changed_entry-grants c r' a t (find_entry-is_same_entry c r.acls id a e)))
    ])
