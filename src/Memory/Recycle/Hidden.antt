-- ===== src/Memory/Recycle/Hidden.antt =====
-- internal/memory/repository.go: what `Recycle` does to its node.
use asteria_drive.Prelude.{
  ℕ, zero, suc, ◌≡◌, String, true, false, none, some, List, [], ◌∷◌, ◌++◌, arith, refl, sym, ◌∙◌,
  ◌==◌, string_eq, str_beq_iff, str_beq_self, Bool-cases, inl, inr, ◌⊎◌, length,
}
use asteria_drive.Prelude.Int.{ℤ, int_eq}
use mathlib.Core.Path.{subst}
use asteria_drive.Dict.{Dict, get, get_or, put}
use asteria_drive.Dict.Laws.{get-put, get-put_self}
use asteria_drive.Result.{ok}
use asteria_drive.Types.Access.{Identity, no_tenant}
use asteria_drive.Types.Node
use asteria_drive.Types.Node.{Node, node_status_eq, node_status_tag_iff, no_node}
use asteria_drive.Memory.State.{Repository, active_node, visible}
use asteria_drive.Memory.Audit.{CallContext, append_audit, audited}
use asteria_drive.Memory.Recycle.{
  trash, for_each_node, children, subtree_from, active_subtree, recycle,
}

-- The root of an entry of the recycle bin.
abbrev IsTrashed : String → Node → Type 0
IsTrashed root n = (n.status ≡ Node.trashed) × (n.trashed_root_id ≡ root)

trash_root :
    (root : String) (now : ℕ) (n : Node)
    → IsTrashed root (trash root now root n)
      × ((trash root now root n).id ≡ n.id)
      × ((trash root now root n).tenant_id ≡ n.tenant_id)
trash_root root now n = ground (arith, str_beq_self root)

found_or :
    (nodes : Dict String Node) (k : String) (n : Node)
    → get nodes k ≡ some n
    → get_or no_node nodes k ≡ n
unfolding get_or
found_or nodes k n g = ground arith

-- One round at the root.
trashed_at :
    (root id : String) (now : ℕ) (nodes : Dict String Node) (n : Node)
    → get nodes root ≡ some n
    → (id == root) ≡ true
    → get (put nodes id (trash root now id (get_or no_node nodes id))) root
      ≡ some (trash root now root n)
trashed_at root id now nodes n g same =
    let q : id ≡ root = (str_beq_iff id root).0 same in
    subst
      (λ x.
        get (put nodes x (trash root now x (get_or no_node nodes x))) root
        ≡ some (trash root now root n))
      (sym q)
      (subst (λ x. get (put nodes root (trash root now root x)) root ≡ some (trash root now root n))
        (sym (found_or nodes root n g)) (get-put_self nodes root (trash root now root n)))

-- Later rounds leave the root trashed.
for_each_node-keeps :
    (root : String) (now : ℕ) (ids : List String) (nodes : Dict String Node) (n : Node)
    → get nodes root ≡ some n
    → IsTrashed root n
    → (m : Node) × (get (for_each_node (trash root now) ids nodes) root ≡ some m)
      × IsTrashed root m
      × (m.id ≡ n.id)
      × (m.tenant_id ≡ n.tenant_id)
unfolding for_each_node
for_each_node-keeps root now [] nodes n g t = (n, g, t, refl, refl)
for_each_node-keeps root now (id ∷ ids) nodes n g t = elim (Bool-cases (id == root)) [
  | inl same ↦
      let (t1, ei, et) = trash_root root now n in
      let (m, gm, tm, ei', et') =
        for_each_node-keeps root now ids
          (put nodes id (trash root now id (get_or no_node nodes id))) (trash root now root n)
          (trashed_at root id now nodes n g same) t1 in
      (m, gm, tm, ei' ∙ ei, et' ∙ et)
  | inr other ↦
      for_each_node-keeps root now ids _ n
        (ground (arith, get-put nodes id root (trash root now id (get_or no_node nodes id)))) t
]

-- The subtree starts with its root.
subtree_from-prefix :
    (fuel : ℕ) (nodes : Dict String Node) (t a : String) (done queue : List String)
    → (rest : List String) × (subtree_from fuel nodes t (a ∷ done) queue ≡ a ∷ rest)
unfolding subtree_from
subtree_from-prefix fuel nodes t a done [] = (done, refl)
subtree_from-prefix zero nodes t a done (id ∷ queue) = (done, refl)
subtree_from-prefix (suc fuel) nodes t a done (id ∷ queue) =
    subtree_from-prefix fuel nodes t a (done ++ id ∷ []) (queue ++ children nodes t id)

active_subtree-root :
    (r : Repository) (root t : String)
    → (rest : List String) × (active_subtree r root t ≡ root ∷ rest)
unfolding active_subtree subtree_from
active_subtree-root r root t =
    subtree_from-prefix (length r.nodes) r.nodes t root [] (children r.nodes t root)

-- After the whole loop the root is trashed.
subtree-IsTrashed :
    (r : Repository) (root t : String) (now : ℕ) (n : Node)
    → get r.nodes root ≡ some n
    → (m : Node) × (get (for_each_node (trash root now) (active_subtree r root t) r.nodes) root
        ≡ some m)
      × IsTrashed root m
      × (m.id ≡ n.id)
      × (m.tenant_id ≡ n.tenant_id)
unfolding for_each_node
subtree-IsTrashed r root t now n g =
    let (rest, e) = active_subtree-root r root t in
    let (t1, ei, et) = trash_root root now n in
    let (m, gm, tm, ei', et') =
      for_each_node-keeps root now rest
        (put r.nodes root (trash root now root (get_or no_node r.nodes root)))
        (trash root now root n) (trashed_at root root now r.nodes n g (str_beq_self root)) t1 in
    (m, rw e gm, tm, ei' ∙ ei, et' ∙ et)

recycle_ok :
    (ctx : CallContext) (i : Identity) (id : String) (revision : ℤ) (now : ℕ) (r : Repository)
    (n : Node)
    → get r.nodes id ≡ some n
    → n.id ≡ id
    → (recycle ctx i id revision now r).0 ≡ ok tt
    → (n.tenant_id ≡ i.tenant_id)
      × (((get_or no_tenant r.tenants i.tenant_id).root_node_id == id) ≡ false)
      × ((recycle ctx i id revision now r).1.tenants ≡ r.tenants)
      × (((recycle ctx i id revision now r).1 ≡ r) × IsTrashed n.id n
          ⊎ ((recycle ctx i id revision now r).1.nodes
              ≡ for_each_node (trash n.id now) (active_subtree r n.id i.tenant_id) r.nodes))
unfolding recycle audited append_audit
recycle_ok ctx i id revision now r n g e h = ground (
  arith,
  str_beq_iff n.tenant_id i.tenant_id,
  str_beq_iff n.trashed_root_id n.id,
  node_status_tag_iff n.status Node.trashed,
)

-- What a success leaves: the node trashed, under the same tenant, which has another root.
pub recycle-IsTrashed :
    (ctx : CallContext) (i : Identity) (id : String) (revision : ℤ) (now : ℕ) (r : Repository)
    (n : Node)
    → get r.nodes id ≡ some n
    → n.id ≡ id
    → (recycle ctx i id revision now r).0 ≡ ok tt
    → (m : Node) × (get (recycle ctx i id revision now r).1.nodes id ≡ some m)
      × IsTrashed id m
      × (m.id ≡ id)
      × (m.tenant_id ≡ i.tenant_id)
recycle-IsTrashed ctx i id revision now r n g e h =
    let (et, plain, same, which) = recycle_ok ctx i id revision now r n g e h in go et which
  where
    go :
        n.tenant_id ≡ i.tenant_id
        → ((recycle ctx i id revision now r).1 ≡ r) × IsTrashed n.id n
          ⊎ ((recycle ctx i id revision now r).1.nodes
              ≡ for_each_node (trash n.id now) (active_subtree r n.id i.tenant_id) r.nodes)
        → (m : Node) × (get (recycle ctx i id revision now r).1.nodes id ≡ some m)
          × IsTrashed id m
          × (m.id ≡ id)
          × (m.tenant_id ≡ i.tenant_id)
    go et (inl (unchanged, (st, tr))) = (n, rw unchanged g, (st, tr ∙ e), e, et)
    go et (inr written) =
        let (m, gm, (st, tr), ei, et') = subtree-IsTrashed r n.id i.tenant_id now n (cc (g, e)) in
        (m, cc (gm, written, e), (st, tr ∙ e), ei ∙ e, et' ∙ et)

hidden :
    (r : Repository) (t id : String) (m : Node)
    → get r.nodes id ≡ some m
    → m.status ≡ Node.trashed
    → active_node r t id ≡ none
unfolding active_node visible
hidden r t id m g st = ground arith

settled :
    (ctx : CallContext) (i : Identity) (id : String) (revision : ℤ) (now : ℕ) (r : Repository)
    (m : Node)
    → get r.nodes id ≡ some m
    → IsTrashed id m
    → m.id ≡ id
    → m.tenant_id ≡ i.tenant_id
    → ((get_or no_tenant r.tenants i.tenant_id).root_node_id == id) ≡ false
    → recycle ctx i id revision now r ≡ (ok tt, r)
unfolding recycle
settled ctx i id revision now r m g (st, tr) ei et plain =
    ground (arith, str_beq_iff m.tenant_id i.tenant_id, str_beq_iff m.trashed_root_id m.id)

-- A node that stands under its identifier and was recycled with success is no live node of any tenant,
-- and a second recycle of it succeeds and changes nothing.
pub recycle_hides :
    (ctx ctx' : CallContext) (i : Identity) (id t : String) (revision revision' : ℤ) (now now' : ℕ)
    (r : Repository) (n : Node)
    → get r.nodes id ≡ some n
    → n.id ≡ id
    → (recycle ctx i id revision now r).0 ≡ ok tt
    → (active_node (recycle ctx i id revision now r).1 t id ≡ none)
      × (recycle ctx' i id revision' now' (recycle ctx i id revision now r).1
          ≡ (ok tt, (recycle ctx i id revision now r).1))
recycle_hides ctx ctx' i id t revision revision' now now' r n g e h =
    let (_, plain, same, _) = recycle_ok ctx i id revision now r n g e h in
    let (m, gm, trashed, ei, et) = recycle-IsTrashed ctx i id revision now r n g e h in
    (
      hidden (recycle ctx i id revision now r).1 t id m gm trashed.0,
      settled ctx' i id revision' now' (recycle ctx i id revision now r).1 m gm trashed ei et
          (rw same plain),
    )
