-- ===== src/Memory/Group/Deletion.antt =====
-- internal/memory/governance.go: the writes of `DeleteGroup`.
use Prim.Native.Char.{len_utf8}
use Prim.Native.String.{◌++◌ as append}
use Prim.Native.String.len
use text.Mathlib.TextLemmas.{append_assoc}
use text.Mathlib.TextPositions.{len-append, len_utf8-pos, starts_with-append}
use asteria_drive.Prelude.{
  ◌≡◌, ◌≢◌, ◌<◌, ◌+◌, String, len, Bool, true, false, none, some, [], ◌∷◌, arith, string_eq,
  str_beq_self, str_beq_iff, refl, ap, ◌∙◌, Eq, Option-cases, inl, inr, sym,
}
use asteria_drive.Dict.{Dict, get, delete, delete_where}
use asteria_drive.Dict.Laws.{get-delete}
use asteria_drive.Result.{ok}
use asteria_drive.Types.Group.{TenantGroup, DeleteGroupCommand, NodeAclEntry, group, subject_eq}
use asteria_drive.Memory.Member.{group_member_key}
use asteria_drive.Memory.State.{Repository}
use asteria_drive.Memory.Audit.{CallContext, append_audit, audited}
use asteria_drive.Memory.Group.{delete_group, is_member_key_of, is_entry_for_group}

-- What is left of a map after a loop that deletes fails its test.
kept-delete_where {ℓ} :
    {K V : Type ℓ} ⦃e : Eq K⦄
    → (p : K → V → Bool) (m : Dict K V) (k : K) (v : V) → get (delete_where p m) k ≡ some v
    → p k v ≡ false
unfolding get delete_where
kept-delete_where p [] k v h = ground arith
kept-delete_where ⦃e⦄ p ((j, w) ∷ m) k v h =
    ground (arith, kept-delete_where p m k v, e.beq_iff j k)

-- A text that is not empty has a byte.
len_positive : (s : String) → s ≢ "" → 0 < len s
len_positive String.[] some_text = absurd (some_text refl)
len_positive (String.◌∷◌ c s) some_text =
    let (k, wide) = len_utf8-pos c in
    let whole : len (String.◌∷◌ c s) ≡ len_utf8 c + len s = len.cons c s in
    ground (arith, wide, whole)

abbrev group_prefix : String → String → String
group_prefix tenant_id group_id = append tenant_id (append "/" (append group_id "/"))

group_member_key_lem :
    (tenant_id group_id principal_id : String)
    → group_member_key tenant_id group_id principal_id
      ≡ append (group_prefix tenant_id group_id) principal_id
unfolding group_member_key
group_member_key_lem tenant_id group_id principal_id = sym (
    append_assoc tenant_id (append "/" (append group_id "/")) principal_id
    ∙ ap (append tenant_id) (
        append_assoc "/" (append group_id "/") principal_id
        ∙ ap (append "/") (append_assoc group_id "/" principal_id)))

len-group_prefix :
    (tenant_id group_id : String)
    → len (group_prefix tenant_id group_id) ≡ len tenant_id + len group_id + 2
len-group_prefix tenant_id group_id =
    let outer = len-append tenant_id (append "/" (append group_id "/")) in
    let middle = len-append "/" (append group_id "/") in
    let inner = len-append group_id "/" in let one : len "/" ≡ 1 = refl in omega arith

-- The key of a membership that goes by a name is one of those that the deletion of its group picks.
is_member_key_of-group_member_key :
    (tenant_id group_id principal_id : String)
    → principal_id ≢ ""
    → is_member_key_of tenant_id group_id (group_member_key tenant_id group_id principal_id) ≡ true
unfolding is_member_key_of
is_member_key_of-group_member_key tenant_id group_id principal_id named =
    let prefix : String = group_prefix tenant_id group_id in
    let long = len-append prefix principal_id in
    let wide = len-group_prefix tenant_id group_id in
    let more = len_positive principal_id named in
    rw (group_member_key_lem tenant_id group_id principal_id)
      (ground (arith, starts_with-append prefix principal_id, long, wide, more))

delete_group_writes :
    (ctx : CallContext) (c : DeleteGroupCommand) (r : Repository) (g : TenantGroup)
    → (delete_group ctx c r).0 ≡ ok tt
    → get r.groups c.group_id ≡ some g
    → ((delete_group ctx c r).1.groups ≡ delete r.groups g.id)
      × ((delete_group ctx c r).1.group_members
          ≡ delete_where (λ k _. is_member_key_of c.tenant_id g.id k) r.group_members)
      × ((delete_group ctx c r).1.acls
          ≡ delete_where (λ _ a. is_entry_for_group c.tenant_id g.id a) r.acls)
unfolding delete_group audited append_audit
delete_group_writes ctx c r g h found = ground arith

entry_not_left :
    (tenant_id group_id : String) (a : NodeAclEntry)
    → a.tenant_id ≡ tenant_id
    → a.subject_type ≡ group
    → a.subject_id ≡ group_id
    → is_entry_for_group tenant_id group_id a ≢ false
unfolding is_entry_for_group
entry_not_left tenant_id group_id a at for is h =
    ground (arith, str_beq_iff a.tenant_id tenant_id, str_beq_iff a.subject_id group_id)

member_not_left :
    (tenant_id group_id key : String) (m : Dict String (Unit {0}))
    → is_member_key_of tenant_id group_id key ≡ true
    → get (delete_where (λ k _. is_member_key_of tenant_id group_id k) m) key ≡ none
member_not_left tenant_id group_id key m picked =
    let left = delete_where (λ k _. is_member_key_of tenant_id group_id k) m in
    elim (Option-cases (get left key)) [
      | inl gone ↦ gone
      | inr (v, there) ↦
          let stays =
            kept-delete_where (λ k _. is_member_key_of tenant_id group_id k) m key v there in
          ground (arith, stays, picked)
    ]

-- After a successful deletion of a group that stands under its identifier, the group is gone, the
-- repository has no membership in it of any principal with an identifier, and no access entry of the
-- tenant whose subject is the group.
pub delete_group_clean :
    (ctx : CallContext) (c : DeleteGroupCommand) (r : Repository) (g : TenantGroup)
    (principal_id entry_id : String) (a : NodeAclEntry)
    → (delete_group ctx c r).0 ≡ ok tt
    → get r.groups c.group_id ≡ some g
    → g.id ≡ c.group_id
    → principal_id ≢ ""
    → a.tenant_id ≡ c.tenant_id
    → a.subject_type ≡ group
    → a.subject_id ≡ c.group_id
    → (get (delete_group ctx c r).1.groups c.group_id ≡ none)
      × (get
            (delete_group ctx c r).1.group_members
            (group_member_key c.tenant_id c.group_id principal_id)
          ≡ none)
      × (get (delete_group ctx c r).1.acls entry_id ≢ some a)
delete_group_clean ctx c r g principal_id entry_id a h found e named at for is =
    let (eg, em, ea) = delete_group_writes ctx c r g h found in
    let key : String = group_member_key c.tenant_id c.group_id principal_id in
    rw (eg, em, ea, e)
      (
        ground (arith, get-delete r.groups c.group_id c.group_id, str_beq_self c.group_id),
        member_not_left c.tenant_id c.group_id key r.group_members
            (is_member_key_of-group_member_key c.tenant_id c.group_id principal_id named),
        λ left. entry_not_left c.tenant_id c.group_id a at for is (
            kept-delete_where (λ _ x. is_entry_for_group c.tenant_id c.group_id x) r.acls entry_id a
              left),
      )
