-- ===== src/Prelude/Sorting.antt =====
-- What `sort.Slice` leaves: the same items, none of them behind an item that it is less than.
use mathlib.Core.List.Permᴰ
use mathlib.Core.List.{Permᴰ}
use asteria_drive.Prelude.{
  Bool, true, false, List, [], ◌∷◌, ◌≡◌, refl, inl, inr, Bool-cases, insert_by, sort_by,
}

-- No item is less than the one before it.
pub data IsSorted {ℓ} {A : Type ℓ} (less : A → A → Bool) : List A → Type ℓ where
  none_to_sort : IsSorted less []
  one_item : {a : A} → IsSorted less (a ∷ [])
  in_place :
      {a b : A} {items : List A}
      → less b a ≡ false
      → IsSorted less (b ∷ items)
      → IsSorted less (a ∷ b ∷ items)

module _ {ℓ} {A : Type ℓ} (less : A → A → Bool) where
  insert_by-Perm : (a : A) (xs : List A) → Permᴰ (a ∷ xs) (insert_by less a xs)
  unfolding insert_by
  insert_by-Perm a [] = Permᴰ.refl (a ∷ [])
  insert_by-Perm a (x ∷ xs) = elim (Bool-cases (less x a)) [
    | inl behind ↦
        rw behind (Permᴰ.trans (Permᴰ.swap refl refl) (Permᴰ.cons refl (insert_by-Perm a xs)))
    | inr here ↦ rw here (Permᴰ.refl (a ∷ x ∷ xs))
  ]

  pub sort_by-Perm : (xs : List A) → Permᴰ xs (sort_by less xs)
  unfolding sort_by
  sort_by-Perm [] = Permᴰ.nil
  sort_by-Perm (x ∷ xs) =
      Permᴰ.trans (Permᴰ.cons refl (sort_by-Perm xs)) (insert_by-Perm x (sort_by less xs))

  module _ (asym : (a b : A) → less a b ≡ true → less b a ≡ false) where
    insert_behind :
        (a x : A) (xs : List A)
        → less a x ≡ false
        → IsSorted less (x ∷ xs)
        → IsSorted less (x ∷ insert_by less a xs)
    unfolding insert_by
    insert_behind a x [] after sorted = in_place after one_item
    insert_behind a x (y ∷ ys) after (in_place here rest) = elim (Bool-cases (less y a)) [
      | inl behind ↦ rw behind (in_place here (insert_behind a y ys (asym y a behind) rest))
      | inr front ↦ rw front (in_place after (in_place front rest))
    ]

    insert_by-IsSorted :
        (a : A) (xs : List A) → IsSorted less xs → IsSorted less (insert_by less a xs)
    unfolding insert_by
    insert_by-IsSorted a [] sorted = one_item
    insert_by-IsSorted a (x ∷ xs) sorted = elim (Bool-cases (less x a)) [
      | inl behind ↦ rw behind (insert_behind a x xs (asym x a behind) sorted)
      | inr here ↦ rw here (in_place here sorted)
    ]

    pub sort_by-IsSorted : (xs : List A) → IsSorted less (sort_by less xs)
    unfolding sort_by
    sort_by-IsSorted [] = none_to_sort
    sort_by-IsSorted (x ∷ xs) = insert_by-IsSorted x (sort_by less xs) (sort_by-IsSorted xs)
