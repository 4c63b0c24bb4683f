-- ===== src/Memory/Acl/Levels.antt =====
-- internal/memory/governance.go, `authorizeNodeLocked`: what decides a permission.
use asteria_drive.Prelude.{
  ℕ, zero, suc, ◌≤◌, ◌≡◌, ◌≢◌, String, Bool, true, some, [], ◌∷◌, arith, ◌⊎◌, ◌↔◌, inl, inr, ◌==◌,
  string_eq, str_beq_iff, Bool-cases, Option-cases, length,
}
use mathlib.Core.Path.{subst}
use asteria_drive.Dict.{Dict, get, any_entry}
use asteria_drive.Result.{ok}
use asteria_drive.Types.Access.{
  Identity, AccessRole, role_eq, active, member_status_eq, member_status_tag_iff, PrincipalRecord,
}
use asteria_drive.Types.Node.{Node}
use asteria_drive.Types.Group.{NodeCapability, valid_node_capability, NodeAclEntry}
use asteria_drive.Memory.State.{Repository, member_key}
use asteria_drive.Memory.Namespace.Tree.{Climbs, above_root, below, Climbs-length}
use asteria_drive.Memory.Acl.{needed_level, grants, granted_from, role_allows, authorize_node}

-- An entry at the node, or at a node above it, gives the principal the level.
pub data IsGranted (r : Repository) (i : Identity) (needed : ℕ) : String → Type 0 where
  here :
      (id : String)
      → id ≢ ""
      → any_entry (λ _ a. grants r i id needed a) r.acls ≡ true
      → IsGranted r i needed id
  inherited :
      (id : String) (n : Node)
      → id ≢ ""
      → get r.nodes id ≡ some n
      → IsGranted r i needed n.parent_id
      → IsGranted r i needed id

module _ (r : Repository) (i : Identity) (needed : ℕ) where
  -- What the loop finds is a grant, whatever the fuel.
  granted_from_sound :
      (fuel : ℕ) (id : String) → granted_from fuel r i id needed ≡ true → IsGranted r i needed id
  unfolding granted_from
  granted_from_sound zero id h = cc
  granted_from_sound (suc fuel) id h = elim (Bool-cases (id == "")) [
    | inl empty ↦ absurd (ground arith)
    | inr e ↦ elim (Bool-cases (any_entry (λ _ a. grants r i id needed a) r.acls)) [
      | inl found ↦ here id (ground (arith, str_beq_iff id "")) found
      | inr other ↦ elim (Option-cases (get r.nodes id)) [
        | inl miss ↦ absurd (ground arith)
        | inr (n, g) ↦
            inherited id n (ground (arith, str_beq_iff id "")) g
              (granted_from_sound fuel n.parent_id (ground arith))
      ]
    ]
  ]

  -- With more fuel than steps to the top, every grant is found.
  granted_from_complete :
      (t : String) (fuel steps : ℕ) (id : String)
      → Climbs r.nodes t steps id
      → steps ≤ fuel
      → IsGranted r i needed id
      → granted_from fuel r i id needed ≡ true
  unfolding granted_from
  granted_from_complete t fuel steps id (above_root _ e) le (here _ ne found) = absurd (ne e)
  granted_from_complete t fuel steps id (above_root _ e) le (inherited _ n ne g up) = absurd (ne e)
  granted_from_complete t zero _ id (below _ n ne g et c) le up = absurd (omega arith)
  granted_from_complete t (suc fuel) (suc steps) id (below _ n ne g et c) le (here _ ne' found) =
      ground (arith, str_beq_iff id "")
  granted_from_complete t (suc fuel) (suc steps) id (below _ n ne g et c) le
        (inherited _ m ne' g' up) =
      ground (
        arith,
        str_beq_iff id "",
        granted_from_complete t fuel steps n.parent_id c (omega arith)
            (let q : m ≡ n = ground arith in subst (λ x. IsGranted r i needed x.parent_id) q up),
      )

decides :
    (r : Repository) (i : Identity) (id : String) (wanted : NodeCapability) (n : Node)
    (m : PrincipalRecord)
    → valid_node_capability wanted ≡ true
    → get r.nodes id ≡ some n
    → n.tenant_id ≡ i.tenant_id
    → get r.members (member_key i.tenant_id i.principal_id) ≡ some m
    → m.status ≡ active
    → (authorize_node i id wanted r ≡ ok tt) ↔ (
        (role_allows m.role (needed_level wanted) ≡ true)
        ⊎ (granted_from (suc (length r.nodes)) r i id (needed_level wanted) ≡ true))
unfolding authorize_node
decides r i id wanted n m valid g et gm em =
    ground (arith, str_beq_iff n.tenant_id i.tenant_id, member_status_tag_iff m.status active)

-- For a valid capability on a node of the tenant of an active member, with parents that lead out of
-- the tree, the answer is yes exactly if the member's role allows the capability everywhere or an
-- access entry at the node or above it, for the principal or one of its groups, reaches the level.
pub authorize_node_iff :
    (r : Repository) (i : Identity) (id t : String) (steps : ℕ) (wanted : NodeCapability) (n : Node)
    (m : PrincipalRecord)
    → valid_node_capability wanted ≡ true
    → get r.nodes id ≡ some n
    → n.tenant_id ≡ i.tenant_id
    → get r.members (member_key i.tenant_id i.principal_id) ≡ some m
    → m.status ≡ active
    → Climbs r.nodes t steps id
    → (authorize_node i id wanted r ≡ ok tt)
      ↔ ((role_allows m.role (needed_level wanted) ≡ true) ⊎ IsGranted r i (needed_level wanted) id)
authorize_node_iff r i id t steps wanted n m valid g et gm em c =
    let level = needed_level wanted in
    let sound = granted_from_sound r i level (suc (length r.nodes)) id in
    let complete =
      granted_from_complete r i level t (suc (length r.nodes)) steps id c
        (ground (arith, Climbs-length steps r.nodes t id c)) in
    let decided = decides r i id wanted n m valid g et gm em in
    (λ h. right sound (decided.0 h), λ h. decided.1 (right complete h))
  where
    right : {A B C : Type 0} → (A → B) → C ⊎ A → C ⊎ B
    right f (inl c) = inl c
    right f (inr a) = inr (f a)

any_entry_mono :
    {K V : Type 0} (p q : K → V → Bool) (m : Dict K V)
    → ((k : K) (v : V) → p k v ≡ true → q k v ≡ true)
    → any_entry p m ≡ true
    → any_entry q m ≡ true
unfolding any_entry
any_entry_mono p q [] h found = found
any_entry_mono p q ((k, v) ∷ m) h found = ground (arith, h k v, any_entry_mono p q m h)

grants_mono :
    (r : Repository) (i : Identity) (id : String) (a b : ℕ)
    → a ≤ b
    → (e : NodeAclEntry) → grants r i id b e ≡ true
    → grants r i id a e ≡ true
unfolding grants
grants_mono r i id a b le e h = ground arith

granted_from_mono :
    (r : Repository) (i : Identity) (a b : ℕ)
    → a ≤ b
    → (fuel : ℕ) (id : String) → granted_from fuel r i id b ≡ true
    → granted_from fuel r i id a ≡ true
unfolding granted_from
granted_from_mono r i a b le zero id h = h
granted_from_mono r i a b le (suc fuel) id h = elim (Option-cases (get r.nodes id)) [
  | inl miss ↦ ground (arith, any_entry_mono _ _ r.acls (λ _. grants_mono r i id a b le))
  | inr (n, g) ↦ ground (
    arith,
    any_entry_mono _ _ r.acls (λ _. grants_mono r i id a b le),
    granted_from_mono r i a b le fuel n.parent_id,
  )
]

role_allows_mono :
    (role : AccessRole) (a b : ℕ) → a ≤ b → role_allows role b ≡ true → role_allows role a ≡ true
unfolding role_allows
role_allows_mono role a b le h = ground arith

-- A principal who may do one thing with a node may do every valid thing with it that needs no higher
-- level.
pub authorize_node_weaker :
    (r : Repository) (i : Identity) (id : String) (a b : NodeCapability)
    → authorize_node i id b r ≡ ok tt
    → valid_node_capability a ≡ true
    → needed_level a ≤ needed_level b
    → authorize_node i id a r ≡ ok tt
unfolding authorize_node
authorize_node_weaker r i id a b h valid le = ground (
  arith,
  Option-cases (get r.nodes id),
  Option-cases (get r.members (member_key i.tenant_id i.principal_id)),
  λ (m : PrincipalRecord). role_allows_mono m.role (needed_level a) (needed_level b) le,
  granted_from_mono r i (needed_level a) (needed_level b) le (suc (length r.nodes)) id,
)
