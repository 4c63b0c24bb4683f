-- ===== src/Dict.antt =====
-- Go's built-in maps, as association lists: `m[k]`, `m[k] = v`, `delete(m, k)` and `range m`.
-- An iteration follows the order of the list; Go leaves the order open.
pub mod Laws
pub mod Unique
use asteria_drive.Prelude.{
  Bool, false, Option, none, some, List, [], ◌∷◌, ◌||◌, map, Eq, ◌==◌, if◌then◌else◌,
}

abbrev pub Dict {ℓ} : Type ℓ → Type ℓ → Type ℓ
Dict K V = List (K × V)

abbrev pub empty {ℓ} : {K V : Type ℓ} → Dict K V
empty = []

module _ {ℓ} {K V : Type ℓ} ⦃e : Eq K⦄ where
  unfoldable pub get : Dict K V → K → Option V
  get [] k = none
  get ((j, v) ∷ m) k = if j == k then some v else get m k

  unfoldable pub delete : Dict K V → K → Dict K V
  delete [] k = []
  delete ((j, v) ∷ m) k = let rest = delete m k in if j == k then rest else (j, v) ∷ rest

  unfoldable pub put : Dict K V → K → V → Dict K V
  put [] k v = (k, v) ∷ []
  put ((j, w) ∷ m) k v = let rest = put m k v in if j == k then (k, v) ∷ m else (j, w) ∷ rest

  -- `m[k]` read for its value alone: the zero value where the key is missing.
  unfoldable pub get_or : V → Dict K V → K → V
  get_or zero_value m k = elim (get m k) [ none ↦ zero_value | some v ↦ v ]

  unfoldable pub has : Dict K V → K → Bool
  has m k = elim (get m k) [ none ↦ false | some v ↦ Bool.true ]

module _ {ℓ} {K V : Type ℓ} where
  unfoldable pub values : Dict K V → List V
  values m = map (λ e. e.1) m

  unfoldable pub any_entry : (K → V → Bool) → Dict K V → Bool
  any_entry p [] = false
  any_entry p ((k, v) ∷ m) = p k v || any_entry p m

  -- Deletes, inside the loop, every entry that the test picks.
  unfoldable pub delete_where : (K → V → Bool) → Dict K V → Dict K V
  delete_where p [] = []
  delete_where p ((k, v) ∷ m) = let rest = delete_where p m in if p k v then rest else (k, v) ∷ rest

  unfoldable pub update_all : (K → V → V) → Dict K V → Dict K V
  update_all f [] = []
  update_all f ((k, v) ∷ m) = (k, f k v) ∷ update_all f m
