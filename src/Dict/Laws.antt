-- ===== src/Dict/Laws.antt =====
-- What a read of a map returns after a write, and what an iteration over a map has seen.
use asteria_drive.Prelude.{
  ◌≡◌, refl, Bool, true, false, none, some, [], ◌∷◌, arith, Eq, ◌==◌, if◌then◌else◌, Bool-cases,
  inl, inr, ◌≤◌, ◌<◌, length,
}
use mathlib.Core.Option
use asteria_drive.Dict.{Dict, get, put, delete, any_entry, delete_where, update_all}

pub beq_refl {ℓ} : {K : Type ℓ} ⦃e : Eq K⦄ → (k : K) → (k == k) ≡ true
beq_refl ⦃e⦄ k = (e.beq_iff k k).1 refl

module _ {ℓ} {K V : Type ℓ} ⦃e : Eq K⦄ where
  pub get-put :
      (m : Dict K V) (k j : K) (v : V) → get (put m k v) j ≡ (if k == j then some v else get m j)
  unfolding get put
  get-put [] k j v = refl
  get-put ((i, w) ∷ m) k j v =
      ground (arith, get-put m k j v, e.beq_iff k j, e.beq_iff i k, e.beq_iff i j)

  pub get-put_self : (m : Dict K V) (k : K) (v : V) → get (put m k v) k ≡ some v
  get-put_self m k v = ground (arith, get-put m k k v, beq_refl k)

  pub get-delete :
      (m : Dict K V) (k j : K) → get (delete m k) j ≡ (if k == j then none else get m j)
  unfolding get delete
  get-delete [] k j = ground arith
  get-delete ((i, w) ∷ m) k j =
      ground (arith, get-delete m k j, e.beq_iff k j, e.beq_iff i k, e.beq_iff i j)

  -- A loop that found nothing has tested the entry of every key.
  pub any_entry_none :
      (p : K → V → Bool) (m : Dict K V) (k : K) (v : V)
      → any_entry p m ≡ false
      → get m k ≡ some v
      → p k v ≡ false
  unfolding any_entry get
  any_entry_none p [] k v h g = ground arith
  any_entry_none p ((j, w) ∷ m) k v h g = ground (arith, any_entry_none p m k v, e.beq_iff j k)

  -- An entry that stays was there before and is not one of those picked.
  pub get-delete_where :
      (p : K → V → Bool) (m : Dict K V) (k : K)
      → ((v : V) → p k v ≡ false)
      → get (delete_where p m) k ≡ get m k
  unfolding delete_where get
  get-delete_where p [] k h = refl
  get-delete_where p ((j, w) ∷ m) k h = ground (arith, get-delete_where p m k h, e.beq_iff j k, h w)

  pub get-update_all :
      (f : K → V → V) (m : Dict K V) (k : K) → get (update_all f m) k ≡ Option.map (f k) (get m k)
  unfolding update_all get
  get-update_all f [] k = refl
  get-update_all f ((j, w) ∷ m) k = elim (Bool-cases (j == k)) [
    | inl same ↦ rw (same, (e.beq_iff j k).0 same)
    | inr other ↦ rw (other, get-update_all f m k)
  ]

  pub length-delete_le : (m : Dict K V) (k : K) → length (delete m k) ≤ length m
  unfolding delete
  length-delete_le [] k = omega arith
  length-delete_le ((j, w) ∷ m) k = ground (arith, length-delete_le m k)

  -- A deletion of a key that is present makes the map shorter.
  pub length-delete :
      (m : Dict K V) (k : K) (v : V) → get m k ≡ some v → length (delete m k) < length m
  unfolding get delete
  length-delete [] k v g = ground arith
  length-delete ((j, w) ∷ m) k v g = ground (arith, length-delete m k v, length-delete_le m k)
