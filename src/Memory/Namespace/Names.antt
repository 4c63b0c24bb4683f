-- ===== src/Memory/Namespace/Names.antt =====
-- internal/memory/repository.go, `nameExists`: the names of the live items of a directory.
use asteria_drive.Prelude.{
  ◌≡◌, ◌≢◌, String, true, false, none, some, arith, ◌⊎◌, inl, inr, sym, ◌∙◌, ◌==◌, string_eq,
  str_beq_iff, Bool-cases,
}
use asteria_drive.Dict.{Dict, get, put, delete}
use asteria_drive.Dict.Laws.{get-put, get-delete, any_entry_none}
use asteria_drive.Types.Node.{Node}
use asteria_drive.Memory.State.{Repository, name_exists, clashes, visible}

-- Nodes stand under their identifiers, none of which is empty, and a live node is the only one of its tenant
-- and parent with its name.
pub record IsNamespace (nodes : Dict String Node) : Type 0 where
  pub keyed : (k : String) (n : Node) → get nodes k ≡ some n → n.id ≡ k
  pub no_empty : get nodes "" ≡ none
  pub unique :
      (j k : String) (m n : Node)
      → get nodes j ≡ some m
      → get nodes k ≡ some n
      → visible m ≡ true
      → visible n ≡ true
      → m.tenant_id ≡ n.tenant_id
      → m.parent_id ≡ n.parent_id
      → m.normalized_name ≡ n.normalized_name
      → j ≡ k

-- A name that `nameExists` finds free is the name of no live node but the one left out.
pub name_free :
    (r : Repository) (t p name except : String)
    → name_exists r t p name except ≡ false
    → (k : String) (n : Node) → get r.nodes k ≡ some n
    → n.id ≢ except
    → visible n ≡ true
    → n.tenant_id ≡ t
    → n.parent_id ≡ p
    → n.normalized_name ≡ name
    → ⊥
unfolding name_exists clashes
name_free r t p name except free k n g e v et ep en = ground (
  arith,
  any_entry_none (λ (_ : String) (n : Node). clashes t p name except n) r.nodes k n free g,
  str_beq_iff n.id except,
  str_beq_iff n.tenant_id t,
  str_beq_iff n.parent_id p,
  str_beq_iff n.normalized_name name,
)

module _ (r : Repository) (x : Node) (except : String) (h : IsNamespace r.nodes) (e : x.id ≢ "")
    (w : (except ≡ x.id) ⊎ (except ≡ ""))
    (free : name_exists r x.tenant_id x.parent_id x.normalized_name except ≡ false) where
  no_clash :
      (k : String) (n : Node)
      → get r.nodes k ≡ some n
      → x.id ≢ k
      → visible n ≡ true
      → n.tenant_id ≡ x.tenant_id
      → n.parent_id ≡ x.parent_id
      → n.normalized_name ≡ x.normalized_name
      → ⊥
  no_clash k n g ne v et ep en =
      name_free r x.tenant_id x.parent_id x.normalized_name except free k n g (left_out w) v et ep
        en
    where
      left_out : (except ≡ x.id) ⊎ (except ≡ "") → n.id ≢ except
      left_out (inl same) q = ne (sym same ∙ sym q ∙ h.keyed k n g)
      left_out (inr none') q = ground (arith, h.keyed k n g, h.no_empty)

  -- Storing a node whose name is free, but for itself, keeps the invariant.
  pub put-IsNamespace : IsNamespace (put r.nodes x.id x)
  put-IsNamespace = record {
    keyed = λ k n g. grind (arith, get-put r.nodes x.id k x, h.keyed k n, str_beq_iff x.id k);
    no_empty = ground (arith, get-put r.nodes x.id "" x, h.no_empty, str_beq_iff x.id "");
    unique = λ j k m n gm gn vm vn et ep en. elim (Bool-cases (x.id == j)) [
      | inl here ↦ elim (Bool-cases (x.id == k)) [
        | inl too ↦ ground (arith, str_beq_iff x.id j, str_beq_iff x.id k)
        | inr other ↦ absurd (
            no_clash k n (ground (arith, get-put r.nodes x.id k x))
              (ground (arith, str_beq_iff x.id k)) vn (ground (arith, get-put r.nodes x.id j x))
              (ground (arith, get-put r.nodes x.id j x)) (ground (arith, get-put r.nodes x.id j x)))
      ]
      | inr other ↦ elim (Bool-cases (x.id == k)) [
        | inl here ↦ absurd (
            no_clash j m (ground (arith, get-put r.nodes x.id j x))
              (ground (arith, str_beq_iff x.id j)) vm (ground (arith, get-put r.nodes x.id k x))
              (ground (arith, get-put r.nodes x.id k x)) (ground (arith, get-put r.nodes x.id k x)))
        | inr too ↦
            h.unique j k m n (ground (arith, get-put r.nodes x.id j x))
              (ground (arith, get-put r.nodes x.id k x)) vm vn et ep en
      ]
    ];
  }

-- Taking a node away keeps the invariant.
pub delete-IsNamespace :
    (nodes : Dict String Node) (id : String) → IsNamespace nodes → IsNamespace (delete nodes id)
delete-IsNamespace nodes id h = record {
  keyed = λ k n g. ground (arith, get-delete nodes id k, h.keyed k n);
  no_empty = ground (arith, get-delete nodes id "", h.no_empty);
  unique = λ j k m n gm gn vm vn et ep en.
      h.unique j k m n (ground (arith, get-delete nodes id j))
        (ground (arith, get-delete nodes id k)) vm vn et ep en;
}
