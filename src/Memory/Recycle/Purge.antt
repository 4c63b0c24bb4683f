-- ===== src/Memory/Recycle/Purge.antt =====
-- internal/memory/repository.go, `PreparePurge`: the blobs of a plan.
use mathlib.Core.List.{Memᴰ}
use mathlib.Core.List.Memᴰ
use mathlib.Core.Path.{subst}
use asteria_drive.Prelude.{
  ℕ, ◌≡◌, ◌≢◌, String, Bool, true, false, some, List, [], ◌∷◌, ◌&&◌, arith, refl, sym, ap, ◌⊎◌, inl,
  inr, ◌==◌, string_eq, str_beq_iff, Bool-cases, not,
}
use asteria_drive.Prelude.Int.{ℤ}
use asteria_drive.Dict.{Dict, get, get_or, put, values}
use asteria_drive.Dict.Laws.{get-put}
use asteria_drive.Result.{ok}
use asteria_drive.Types.Access.{Identity}
use asteria_drive.Types.Node.{Node, Blob, FileVersion, PurgePlan, no_blob, blob_status_eq, deleted}
use asteria_drive.Memory.State.{Repository}
use asteria_drive.Memory.Recycle.{
  prepare_purge, condemn, condemned, referenced_outside, trashed_subtree, blobs_inside,
}

-- A blob that is read has the identifier asked for, or none.
pub record IsIdentified (blobs : Dict String Blob) : Type 0 where
  pub at_key : (k : String) → ((get_or no_blob blobs k).id ≡ k) ⊎ ((get_or no_blob blobs k).id ≡ "")

condemned-IsIdentified :
    (blobs : Dict String Blob) (id : String)
    → IsIdentified blobs
    → IsIdentified (put blobs id (condemned (get_or no_blob blobs id)))
unfolding get_or
condemned-IsIdentified blobs id h = record {
  at_key = λ k.
      let mine = h.at_key id in
      let theirs = h.at_key k in
      ground (
        arith,
        mine,
        theirs,
        get-put blobs id k (condemned (get_or no_blob blobs id)),
        str_beq_iff id k,
      );
}

module _ (subtree : List String) (versions : List FileVersion) where
  -- The test of the loop.
  abbrev is_freed : String → Dict String Blob → Bool
  is_freed id blobs =
      not (referenced_outside subtree versions id)
      && not ((get_or no_blob blobs id).status == deleted)

  condemn_end : (blobs : Dict String Blob) → (condemn subtree versions [] blobs).1 ≡ []
  unfolding condemn
  condemn_end blobs = refl

  condemn_freed :
      (id : String) (ids : List String) (blobs : Dict String Blob)
      → is_freed id blobs ≡ true
      → (condemn subtree versions (id ∷ ids) blobs).1
        ≡ condemned (get_or no_blob blobs id)
          ∷ (condemn subtree versions ids (put blobs id (condemned (get_or no_blob blobs id)))).1
  unfolding condemn
  condemn_freed id ids blobs t = ground arith

  condemn_kept :
      (id : String) (ids : List String) (blobs : Dict String Blob)
      → is_freed id blobs ≡ false
      → (condemn subtree versions (id ∷ ids) blobs).1 ≡ (condemn subtree versions ids blobs).1
  unfolding condemn
  condemn_kept id ids blobs t = ground arith

  freed_unreferenced :
      (id : String) (blobs : Dict String Blob) (b : Blob)
      → IsIdentified blobs
      → is_freed id blobs ≡ true
      → b ≡ condemned (get_or no_blob blobs id)
      → b.id ≢ ""
      → referenced_outside subtree versions b.id ≡ false
  freed_unreferenced id blobs b h t e ne =
      let same : b.id ≡ (get_or no_blob blobs id).id = ap (λ (x : Blob). x.id) e in
      let mine = h.at_key id in
      let here : b.id ≡ id = ground arith in
      subst (λ x. referenced_outside subtree versions x ≡ false) (sym here) (ground arith)

  -- Every blob that the loop plans was not referenced outside.
  condemn_unreferenced :
      (ids : List String) (blobs : Dict String Blob) (b : Blob)
      → IsIdentified blobs
      → Memᴰ b (condemn subtree versions ids blobs).1
      → b.id ≢ ""
      → referenced_outside subtree versions b.id ≡ false
  condemn_unreferenced [] blobs b h m ne =
      absurd (Memᴰ.not-nil (subst (Memᴰ b) (condemn_end blobs) m))
  condemn_unreferenced (id ∷ ids) blobs b h m ne = elim (Bool-cases (is_freed id blobs)) [
    | inl t ↦ elim (Memᴰ.cases_cons (subst (Memᴰ b) (condemn_freed id ids blobs t) m)) [
      | inl e ↦ freed_unreferenced id blobs b h t e ne
      | inr m' ↦
          condemn_unreferenced ids (put blobs id (condemned (get_or no_blob blobs id))) b
            (condemned-IsIdentified blobs id h) m' ne
    ]
    | inr t ↦ condemn_unreferenced ids blobs b h (subst (Memᴰ b) (condemn_kept id ids blobs t) m) ne
  ]

plan_blobs :
    (i : Identity) (id : String) (revision : ℤ) (now : ℕ) (r : Repository) (plan : PurgePlan)
    (n : Node)
    → get r.nodes id ≡ some n
    → (prepare_purge i id revision now r).0 ≡ ok plan
    → plan.blobs
      ≡ (condemn
          (trashed_subtree r n.id i.tenant_id)
          (values r.versions)
          (blobs_inside i.tenant_id (trashed_subtree r n.id i.tenant_id) (values r.versions))
          r.blobs).1
unfolding prepare_purge
plan_blobs i id revision now r plan n g h = ground arith

-- When a blob that is read has the identifier asked for or none: no blob with an identifier that a
-- purge plans to delete belongs to a version of a node outside the purged subtree.
pub prepare_purge_spares :
    (i : Identity) (id : String) (revision : ℤ) (now : ℕ) (r : Repository) (plan : PurgePlan)
    (n : Node) (b : Blob)
    → IsIdentified r.blobs
    → get r.nodes id ≡ some n
    → (prepare_purge i id revision now r).0 ≡ ok plan
    → Memᴰ b plan.blobs
    → b.id ≢ ""
    → referenced_outside (trashed_subtree r n.id i.tenant_id) (values r.versions) b.id ≡ false
prepare_purge_spares i id revision now r plan n b h g done m ne =
    condemn_unreferenced (trashed_subtree r n.id i.tenant_id) (values r.versions) _ r.blobs b h
      (subst (Memᴰ b) (plan_blobs i id revision now r plan n g done) m) ne
