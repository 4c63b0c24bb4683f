-- ===== src/Memory/Namespace/Tree.antt =====
-- internal/memory/repository.go, `isDescendant`: the way up from a node, and the end of the loop.
use asteria_drive.Prelude.{
  ℕ, zero, suc, ◌≤◌, ◌<◌, ◌≡◌, ◌≢◌, String, true, some, arith, refl, inl, inr, ◌==◌, string_eq,
  str_beq_iff, Bool-cases, Option-cases, length, ◌↔◌, sym,
}
use mathlib.Core.Path.{subst}
use asteria_drive.Dict.{Dict, get, delete}
use asteria_drive.Dict.Laws.{get-delete, length-delete}
use asteria_drive.Types.Node.{Node}
use asteria_drive.Memory.State.{Repository}
use asteria_drive.Memory.Namespace.{climbs_to, is_descendant}

-- From `id` the parents lead out of the tree, past a root, in `steps` steps: `id` is empty, or a node of the
-- tenant whose parent does.
pub data Climbs (nodes : Dict String Node) (tenant_id : String) : ℕ → String → Type 0 where
  above_root : (id : String) → id ≡ "" → Climbs nodes tenant_id zero id
  below :
      {steps : ℕ} (id : String) (n : Node)
      → id ≢ ""
      → get nodes id ≡ some n
      → n.tenant_id ≡ tenant_id
      → Climbs nodes tenant_id steps n.parent_id
      → Climbs nodes tenant_id (suc steps) id

-- `a` is `id` or stands above it.
pub data IsAtOrAbove (nodes : Dict String Node) (a : String) : String → Type 0 where
  at : (id : String) → id ≡ a → id ≢ "" → IsAtOrAbove nodes a id
  above :
      (id : String) (n : Node)
      → id ≢ ""
      → get nodes id ≡ some n
      → IsAtOrAbove nodes a n.parent_id
      → IsAtOrAbove nodes a id

module _ (nodes : Dict String Node) (a t : String) where
  -- What the loop finds is an ancestor, whatever the fuel.
  climbs_to_sound :
      (fuel : ℕ) (id : String) → climbs_to fuel nodes id a t ≡ true → IsAtOrAbove nodes a id
  unfolding climbs_to
  climbs_to_sound zero id h = cc
  climbs_to_sound (suc fuel) id h = elim (Bool-cases (id == "")) [
    | inl empty ↦ absurd (ground arith)
    | inr e ↦ elim (Bool-cases (id == a)) [
      | inl here ↦ at id (ground (arith, str_beq_iff id a)) (ground (arith, str_beq_iff id ""))
      | inr there ↦ elim (Option-cases (get nodes id)) [
        | inl miss ↦ absurd (ground arith)
        | inr (n, g) ↦
            above id n (ground (arith, str_beq_iff id "")) g
              (climbs_to_sound fuel n.parent_id (ground arith))
      ]
    ]
  ]

  -- With more fuel than steps to the top, every ancestor is found.
  climbs_to_complete :
      (fuel steps : ℕ) (id : String)
      → Climbs nodes t steps id
      → steps ≤ fuel
      → IsAtOrAbove nodes a id
      → climbs_to fuel nodes id a t ≡ true
  unfolding climbs_to
  climbs_to_complete fuel steps id (above_root _ e) le (at _ q ne) = absurd (ne e)
  climbs_to_complete fuel steps id (above_root _ e) le (above _ n ne g up) = absurd (ne e)
  climbs_to_complete zero _ id (below _ n ne g et c) le up = absurd (omega arith)
  climbs_to_complete (suc fuel) (suc steps) id (below _ n ne g et c) le (at _ q ne') =
      ground (arith, str_beq_iff id a, str_beq_iff id "")
  climbs_to_complete (suc fuel) (suc steps) id (below _ n ne g et c) le (above _ m ne' g' up) =
      ground (
        arith,
        str_beq_iff id a,
        str_beq_iff id "",
        str_beq_iff n.tenant_id t,
        climbs_to_complete fuel steps n.parent_id c (omega arith)
            (let q : m ≡ n = ground arith in subst (λ x. IsAtOrAbove nodes a x.parent_id) q up),
      )

-- There is one number of steps from a node to the top.
Climbs-unique :
    (nodes : Dict String Node) (t : String) (n m : ℕ) (id : String)
    → Climbs nodes t n id
    → Climbs nodes t m id
    → n ≡ m
Climbs-unique nodes t _ _ id (above_root _ e) (above_root _ e') = refl
Climbs-unique nodes t _ _ id (above_root _ e) (below _ n ne g et c) = absurd (ne e)
Climbs-unique nodes t _ _ id (below _ n ne g et c) (above_root _ e) = absurd (ne e)
Climbs-unique nodes t (suc i) (suc j) id (below _ n ne g et c) (below _ m ne' g' et' d) =
    let q : n ≡ m = ground arith in
    let d' : Climbs nodes t j n.parent_id = subst (λ x. Climbs nodes t j x.parent_id) (sym q) d in
    let e : i ≡ j = Climbs-unique nodes t i j n.parent_id c d' in omega arith

-- The way up from a node does not pass a node that is farther from the top.
Climbs-delete :
    (nodes : Dict String Node) (t : String) (n m : ℕ) (id k : String)
    → Climbs nodes t n id
    → Climbs nodes t m k
    → n < m
    → Climbs (delete nodes k) t n id
Climbs-delete nodes t _ m id k (above_root _ e) d lt = above_root id e
Climbs-delete nodes t (suc i) m id k (below _ n ne g et c) d lt = elim (Bool-cases (k == id)) [
  | inl same ↦
      let q : k ≡ id = ground (arith, str_beq_iff k id) in
      let e : suc i ≡ m =
        Climbs-unique nodes t (suc i) m id (below id n ne g et c) (subst (Climbs nodes t m) q d) in
      absurd (omega arith)
  | inr other ↦
      below id n ne (ground (arith, get-delete nodes k id)) et
        (Climbs-delete nodes t i m n.parent_id k c d (omega arith))
]

-- There are at least as many nodes as steps to the top.
pub Climbs-length :
    (steps : ℕ) (nodes : Dict String Node) (t id : String)
    → Climbs nodes t steps id
    → steps ≤ length nodes
Climbs-length _ nodes t id (above_root _ e) = omega arith
Climbs-length (suc i) nodes t id (below _ n ne g et c) = ground (
  arith,
  length-delete nodes id n g,
  Climbs-length i (delete nodes id) t n.parent_id
      (Climbs-delete nodes t i (suc i) n.parent_id id c (below id n ne g et c) (omega arith)),
)

-- For a candidate whose parents, all of the tenant, lead out of the tree, isDescendant answers true
-- exactly for the candidate itself and the nodes above it; as many steps as there are nodes are
-- enough.
pub is_descendant_iff :
    (r : Repository) (candidate a t : String) (steps : ℕ)
    → Climbs r.nodes t steps candidate
    → (is_descendant r candidate a t ≡ true) ↔ IsAtOrAbove r.nodes a candidate
unfolding is_descendant
is_descendant_iff r candidate a t steps c = (
  climbs_to_sound r.nodes a t (suc (length r.nodes)) candidate,
  climbs_to_complete r.nodes a t (suc (length r.nodes)) steps candidate c
      (ground (arith, Climbs-length steps r.nodes t candidate c)),
)
