-- ===== src/Memory/Member/Admins.antt =====
-- internal/memory: `UpdateMember` and `DeleteMember` as an administrator calls them.
use asteria_drive.Prelude.{
  ◌≡◌, ◌≢◌, String, false, some, arith, ◌⊎◌, inl, inr, ◌==◌, string_eq, str_beq_iff, ◌↔◌,
  Bool-cases, Option-cases, nat_eq, ◌||◌,
}
use asteria_drive.Dict.{Dict, get, get_or, put}
use asteria_drive.Dict.Laws.{get-put, get-delete}
use asteria_drive.Types.Access.{
  owner, admin, role_eq, role_tag_iff, member_status_eq, PrincipalRecord, UpdateMemberCommand,
  DeleteMemberCommand, no_tenant,
}
use asteria_drive.Memory.State.{Repository, member_key}
use asteria_drive.Memory.Audit.{CallContext, append_audit, audited}
use asteria_drive.Memory.Member.Owners.{update_member_miss}
use asteria_drive.Memory.Member.{update_member, delete_member, given, changed}

changed_no_owner :
    (c : UpdateMemberCommand) (m : PrincipalRecord) (name : String)
    → (m.role == owner || given c.role (λ role. role == owner)) ≡ false
    → (changed c name m).role ≢ owner
unfolding changed
changed_no_owner c m name h = ground (arith, role_tag_iff m.role owner)

admin_update :
    (ctx : CallContext) (r : Repository) (c : UpdateMemberCommand) (n : PrincipalRecord)
    → c.actor_role ≡ admin
    → get r.members (member_key c.tenant_id c.principal_id) ≡ some n
    → ((update_member ctx c r).1.members ≡ r.members)
      ⊎ (((update_member ctx c r).1.members
            ≡ put r.members
                (member_key c.tenant_id c.principal_id)
                (changed c (get_or no_tenant r.tenants c.tenant_id).display_name n))
          × ((n.role == owner || given c.role (λ role. role == owner)) ≡ false))
unfolding update_member audited append_audit
admin_update ctx r c n ea g = ground arith

-- A replacement of a record that is no owner by one that is none leaves the owners' records.
put_owner :
    (members : Dict String PrincipalRecord) (key k : String) (n n' m : PrincipalRecord)
    → get members key ≡ some n
    → n.role ≢ owner
    → n'.role ≢ owner
    → m.role ≡ owner
    → (get (put members key n') k ≡ some m) ↔ (get members k ≡ some m)
put_owner members key k n n' m g ne ne' eo = elim (Bool-cases (key == k)) [
  | inl same ↦
      let q : key ≡ k = ground (arith, str_beq_iff key k) in
      ground (arith, get-put members key k n')
  | inr other ↦ ground (arith, get-put members key k n')
]

-- An update that an administrator asks for, whether it succeeds or not, leaves every owner's record as
-- it was and makes no new owner.
pub update_member_by_admin :
    (ctx : CallContext) (r : Repository) (c : UpdateMemberCommand) (k : String)
    (m : PrincipalRecord)
    → c.actor_role ≡ admin
    → m.role ≡ owner
    → (get (update_member ctx c r).1.members k ≡ some m) ↔ (get r.members k ≡ some m)
update_member_by_admin ctx r c k m ea eo =
    elim (Option-cases (get r.members (member_key c.tenant_id c.principal_id))) [
      | inl miss ↦ rw (update_member_miss ctx r c miss) ((λ h. h), (λ h. h))
      | inr (n, g) ↦ go n g (admin_update ctx r c n ea g)
    ]
  where
    go :
        (n : PrincipalRecord)
        → get r.members (member_key c.tenant_id c.principal_id) ≡ some n
        → ((update_member ctx c r).1.members ≡ r.members)
          ⊎ (((update_member ctx c r).1.members
                ≡ put r.members
                    (member_key c.tenant_id c.principal_id)
                    (changed c (get_or no_tenant r.tenants c.tenant_id).display_name n))
              × ((n.role == owner || given c.role (λ role. role == owner)) ≡ false))
        → (get (update_member ctx c r).1.members k ≡ some m) ↔ (get r.members k ≡ some m)
    go n g (inl same) = rw same ((λ h. h), (λ h. h))
    go n g (inr (e, plain)) = rw e (
        put_owner r.members (member_key c.tenant_id c.principal_id) k n _ m g
          (ground (arith, role_tag_iff n.role owner)) (changed_no_owner c n _ plain) eo)

-- A deletion that an administrator asks for, whether it succeeds or not, leaves every owner's record
-- as it was and makes no new owner.
pub delete_member_by_admin :
    (ctx : CallContext) (r : Repository) (c : DeleteMemberCommand) (k : String)
    (m : PrincipalRecord)
    → c.actor_role ≡ admin
    → m.role ≡ owner
    → (get (delete_member ctx c r).1.members k ≡ some m) ↔ (get r.members k ≡ some m)
unfolding delete_member audited append_audit
delete_member_by_admin ctx r c k m ea eo = ground (
  arith,
  Option-cases (get r.members (member_key c.tenant_id c.principal_id)),
  str_beq_iff (member_key c.tenant_id c.principal_id) k,
  get-delete r.members (member_key c.tenant_id c.principal_id) k,
)
