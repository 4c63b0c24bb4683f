-- ===== src/Memory/Member/Owners.antt =====
-- internal/memory: the owners of a tenant under `UpdateMember` and `DeleteMember`.
use asteria_drive.Prelude.{
  ◌≡◌, refl, String, true, none, some, arith, ◌⊎◌, inl, inr, string_eq, Option-cases, nat_eq,
}
use asteria_drive.Dict.{get, get_or, put}
use asteria_drive.Types.Access.{
  role_eq, member_status_eq, PrincipalRecord, UpdateMemberCommand, DeleteMemberCommand, no_tenant,
}
use asteria_drive.Memory.State.{Repository, member_key}
use asteria_drive.Memory.Audit.{CallContext, append_audit, audited}
use asteria_drive.Memory.Member.{update_member, delete_member, changed, is_active_owner}
use asteria_drive.Memory.Member.Roll.{IsRoll, HasOwner, Spares, Step, Step-IsRoll, Step-HasOwner}

pub update_member_miss :
    (ctx : CallContext) (r : Repository) (c : UpdateMemberCommand)
    → get r.members (member_key c.tenant_id c.principal_id) ≡ none
    → (update_member ctx c r).1.members ≡ r.members
unfolding update_member
update_member_miss ctx r c miss = ground arith

changed_identity :
    (c : UpdateMemberCommand) (m : PrincipalRecord) (name : String)
    → (changed c name m).identity ≡ m.identity
unfolding changed
changed_identity c m name = refl

module _ (ctx : CallContext) (r : Repository) (roll : IsRoll r.members) where
  update_member_members :
      (c : UpdateMemberCommand) (m m' : PrincipalRecord)
      → get r.members (member_key c.tenant_id c.principal_id) ≡ some m
      → m' ≡ changed c (get_or no_tenant r.tenants c.tenant_id).display_name m
      → ((update_member ctx c r).1.members ≡ r.members)
        ⊎ (((update_member ctx c r).1.members
              ≡ put r.members (member_key c.tenant_id c.principal_id) m')
            × ((is_active_owner m' ≡ true) ⊎ Spares r c.tenant_id c.principal_id m))
  unfolding update_member audited append_audit
  update_member_members c m m' g q = ground arith

  update_member-Step :
      (c : UpdateMemberCommand)
      → Step r c.tenant_id c.principal_id (update_member ctx c r).1.members
  update_member-Step c =
      elim (Option-cases (get r.members (member_key c.tenant_id c.principal_id))) [
        | inl miss ↦ inl (update_member_miss ctx r c miss)
        | inr (m, g) ↦ go m g (update_member_members c m _ g refl)
      ]
    where
      go :
          (m : PrincipalRecord)
          → get r.members (member_key c.tenant_id c.principal_id) ≡ some m
          → ((update_member ctx c r).1.members ≡ r.members)
            ⊎ (((update_member ctx c r).1.members
                  ≡ put r.members
                      (member_key c.tenant_id c.principal_id)
                      (changed c (get_or no_tenant r.tenants c.tenant_id).display_name m))
                × ((is_active_owner
                        (changed c (get_or no_tenant r.tenants c.tenant_id).display_name m)
                      ≡ true)
                    ⊎ Spares r c.tenant_id c.principal_id m))
          → Step r c.tenant_id c.principal_id (update_member ctx c r).1.members
      go m g (inl same) = inl same
      go m g (inr (e, s)) = inr (inl (m, _, g, e, changed_identity c m _, s))

  delete_member-Step :
      (c : DeleteMemberCommand)
      → Step r c.tenant_id c.principal_id (delete_member ctx c r).1.members
  unfolding delete_member audited append_audit
  delete_member-Step c =
      ground (arith, Option-cases (get r.members (member_key c.tenant_id c.principal_id)))

  -- From an orderly roll of members, an update of a member of a tenant that has an active owner, whether
  -- it succeeds or not, leaves the roll in order and the tenant with an active owner.
  pub update_member-HasOwner :
      (c : UpdateMemberCommand)
      → HasOwner r.members c.tenant_id
      → IsRoll (update_member ctx c r).1.members
        × HasOwner (update_member ctx c r).1.members c.tenant_id
  update_member-HasOwner c has = (
    Step-IsRoll r c.tenant_id c.principal_id _ roll (update_member-Step c),
    Step-HasOwner r c.tenant_id c.principal_id _ roll (update_member-Step c) has,
  )

  -- From an orderly roll of members, a deletion of a member of a tenant that has an active owner,
  -- whether it succeeds or not, leaves the roll in order and the tenant with an active owner.
  pub delete_member-HasOwner :
      (c : DeleteMemberCommand)
      → HasOwner r.members c.tenant_id
      → IsRoll (delete_member ctx c r).1.members
        × HasOwner (delete_member ctx c r).1.members c.tenant_id
  delete_member-HasOwner c has = (
    Step-IsRoll r c.tenant_id c.principal_id _ roll (delete_member-Step c),
    Step-HasOwner r c.tenant_id c.principal_id _ roll (delete_member-Step c) has,
  )
