-- ===== src/Dict/Unique.antt =====
-- Go's maps hold one entry for each key: the lists of entries without a repeated key.
use asteria_drive.Prelude.{
  ◌≡◌, ◌≢◌, Bool, true, none, some, [], ◌∷◌, arith, refl, Eq, ◌==◌, Bool-cases, inl, inr, length,
  filter,
}
use asteria_drive.Dict.{Dict, get, put, delete, values}
use asteria_drive.Dict.Laws.{get-put, get-delete}

module _ {ℓ} {K V : Type ℓ} ⦃e : Eq K⦄ where
  -- No key stands in the list twice.
  pub data IsUnique : Dict K V → Type ℓ where
    nil : IsUnique []
    cons : (k : K) (v : V) (m : Dict K V) → get m k ≡ none → IsUnique m → IsUnique ((k, v) ∷ m)

  pub put-IsUnique : (m : Dict K V) (k : K) (v : V) → IsUnique m → IsUnique (put m k v)
  unfolding put
  put-IsUnique [] k v nil = cons k v [] (unfold get in refl) nil
  put-IsUnique ((j, w) ∷ m) k v (cons _ _ _ fresh u) = elim (Bool-cases (j == k)) [
    | inl same ↦ rw same (cons k v m (ground (arith, e.beq_iff j k)) u)
    | inr other ↦ rw other (
        cons j w (put m k v) (ground (arith, get-put m k j v, e.beq_iff j k, e.beq_iff k j))
          (put-IsUnique m k v u))
  ]

  pub delete-IsUnique : (m : Dict K V) (k : K) → IsUnique m → IsUnique (delete m k)
  unfolding delete
  delete-IsUnique [] k nil = nil
  delete-IsUnique ((j, w) ∷ m) k (cons _ _ _ fresh u) = elim (Bool-cases (j == k)) [
    | inl same ↦ rw same (delete-IsUnique m k u)
    | inr other ↦
        rw other (cons j w (delete m k) (ground (arith, get-delete m k j)) (delete-IsUnique m k u))
  ]

  -- A count over the values that is not zero has met the value of some key.
  pub counted :
      (p : V → Bool) (m : Dict K V)
      → IsUnique m
      → length (filter p (values m)) ≢ 0
      → (k : K) × (v : V) × (get m k ≡ some v) × (p v ≡ true)
  unfolding filter values get
  counted p [] nil some_found = absurd (some_found refl)
  counted p ((j, w) ∷ m) (cons _ _ _ fresh u) some_found = elim (Bool-cases (p w)) [
    | inl here ↦ (j, w, ground (arith, e.beq_iff j j), here)
    | inr there ↦
        let (k, v, g, h) = counted p m u (ground arith) in (k, v, ground (arith, e.beq_iff j k), h)
  ]
