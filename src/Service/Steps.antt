-- ===== src/Service/Steps.antt =====
-- What a successful sequence of actions has done: each step has succeeded, in the world the last one left.
use asteria_drive.Prelude.{◌≡◌, ◌≢◌, ◌⊎◌, inl, inr, refl, arith}
use asteria_drive.Result.{DriveError, Result, ok, err}
use asteria_drive.Service.{World, Action, raise, lift, ◌>>=◌, ◌>>◌}

pub Result-cases :
    {A : Type 0} (r : Result A) → ((a : A) × (r ≡ ok a)) ⊎ ((e : DriveError) × (r ≡ err e))
Result-cases (ok a) = inl (a, refl)
Result-cases (err e) = inr (e, refl)

pub >>=-ok :
    {S A B : Type 0} (m : Action S A) (f : A → Action S B) (w : World S) (b : B)
    → ((m >>= f) w).0 ≡ ok b
    → (a : A) × ((m w).0 ≡ ok a) × ((m >>= f) w ≡ f a (m w).1)
>>=-ok m f w b h = elim (Result-cases (m w).0) [
  | inl (a, e) ↦ (a, e, ground (arith, e))
  | inr (e, failed) ↦ ground (arith, failed, h)
]

pub >>-raise_fails :
    {S A B : Type 0} (m : Action S A) (e : DriveError) (w : World S) (b : B)
    → ((m >> raise {A = B} e) w).0 ≢ ok b
>>-raise_fails m e w b h = elim (Result-cases (m w).0) [
  | inl (a, done) ↦ ground (arith, done, h)
  | inr (e, failed) ↦ ground (arith, failed, h)
]

-- What follows a step without touching the world leaves the world of the step.
pub >>-lift_keeps :
    {S A B : Type 0} (m : Action S A) (r : Result B) (w : World S) → ((m >> lift r) w).1 ≡ (m w).1
>>-lift_keeps m r w = elim (Result-cases (m w).0) [
  | inl (a, done) ↦ ground (arith, done)
  | inr (e, failed) ↦ ground (arith, failed)
]

pub >>=-step :
    {S A B : Type 0} (m : Action S A) (f : A → Action S B) (w w' : World S) (a : A)
    → m w ≡ (ok a, w')
    → (m >>= f) w ≡ f a w'
>>=-step m f w w' a e = ground (arith, e)
