-- ===== src/Memory/Maintenance/Leases.antt =====
-- internal/memory/maintenance.go: the leases that `ClaimUploadsForMaintenance` takes.
use asteria_drive.Prelude.{
  ℕ, ◌<◌, ◌≡◌, String, Bool, false, List, [], ◌∷◌, arith, sym, ◌&&◌, ◌≢◌, string_eq, nat_eq,
  str_beq_iff, Bool-cases, inl, inr, filter, sort_by, insert_by, take, length, ltb,
}
use mathlib.Core.Path.{subst}
use mathlib.Core.List.{Memᴰ}
use mathlib.Core.List.Memᴰ
use asteria_drive.Dict.{get_or, put}
use asteria_drive.Dict.Laws.{get-put, get-put_self}
use asteria_drive.Result.{ErrorCode}
use asteria_drive.Types.Upload.{UploadSession, UploadStatus, UploadMaintenanceClaim}
use asteria_drive.Memory.State.{Repository, no_lease, reject}
use asteria_drive.Memory.Maintenance.{
  is_blocked, needs_maintenance, first_of, leased, lease_uploads, claim_uploads_for_maintenance,
  finish_upload_maintenance,
}

-- The upload's lease is the owner's, until the time.
abbrev IsHeld : String → ℕ → Repository → String → Type 0
IsHeld owner lease_until r id =
    ((get_or no_lease r.upload_maintenance id).owner ≡ owner)
    × ((get_or no_lease r.upload_maintenance id).until ≡ lease_until)

-- Taking more leases leaves those that were taken.
lease_uploads-keeps :
    (owner : String) (lease_until : ℕ) (xs : List (String × UploadSession)) (r : Repository)
    (id : String)
    → IsHeld owner lease_until r id
    → IsHeld owner lease_until (lease_uploads owner lease_until xs r).1 id
unfolding lease_uploads get_or
lease_uploads-keeps owner lease_until [] r id h = h
lease_uploads-keeps owner lease_until ((j, u) ∷ xs) r id h =
    lease_uploads-keeps owner lease_until xs _ id (
      ground (
        arith,
        get-put r.upload_maintenance j id (record (get_or no_lease r.upload_maintenance j) {
          owner = owner;
          until = lease_until;
        }),
        str_beq_iff j id,
      ))

-- The uploads of the list stand under their identifiers.
pub data AllKeyed : List (String × UploadSession) → Type 0 where
  nil : AllKeyed []
  cons :
      (id : String) (u : UploadSession) (xs : List (String × UploadSession))
      → u.id ≡ id
      → AllKeyed xs
      → AllKeyed ((id, u) ∷ xs)

filter-AllKeyed :
    (p : String × UploadSession → Bool) (xs : List (String × UploadSession))
    → AllKeyed xs
    → AllKeyed (filter p xs)
unfolding filter
filter-AllKeyed p [] nil = nil
filter-AllKeyed p ((id, u) ∷ xs) (cons _ _ _ e ks) = elim (Bool-cases (p (id, u))) [
  | inl kept ↦ rw kept (cons id u _ e (filter-AllKeyed p xs ks))
  | inr left ↦ rw left (filter-AllKeyed p xs ks)
]

insert_by-AllKeyed :
    (less : String × UploadSession → String × UploadSession → Bool) (id : String)
    (u : UploadSession) (xs : List (String × UploadSession))
    → u.id ≡ id
    → AllKeyed xs
    → AllKeyed (insert_by less (id, u) xs)
unfolding insert_by
insert_by-AllKeyed less id u [] e nil = cons id u [] e nil
insert_by-AllKeyed less id u ((j, w) ∷ xs) e (cons _ _ _ e' ks) =
    elim (Bool-cases (less (j, w) (id, u))) [
      | inl after ↦ rw after (cons j w _ e' (insert_by-AllKeyed less id u xs e ks))
      | inr before ↦ rw before (cons id u _ e (cons j w xs e' ks))
    ]

sort_by-AllKeyed :
    (less : String × UploadSession → String × UploadSession → Bool)
    (xs : List (String × UploadSession))
    → AllKeyed xs
    → AllKeyed (sort_by less xs)
unfolding sort_by
sort_by-AllKeyed less [] nil = nil
sort_by-AllKeyed less ((id, u) ∷ xs) (cons _ _ _ e ks) =
    insert_by-AllKeyed less id u (sort_by less xs) e (sort_by-AllKeyed less xs ks)

take-AllKeyed : (n : ℕ) (xs : List (String × UploadSession)) → AllKeyed xs → AllKeyed (take n xs)
unfolding take
take-AllKeyed ℕ.zero xs ks = nil
take-AllKeyed (ℕ.suc n) [] nil = nil
take-AllKeyed (ℕ.suc n) ((id, u) ∷ xs) (cons _ _ _ e ks) = cons id u _ e (take-AllKeyed n xs ks)

first_of-AllKeyed :
    (n : ℕ) (xs : List (String × UploadSession)) → AllKeyed xs → AllKeyed (first_of n xs)
first_of-AllKeyed n xs ks = elim (Bool-cases (ltb 0 n && ltb n (length xs))) [
  | inl cut ↦ rw cut (take-AllKeyed n xs ks)
  | inr whole ↦ rw whole ks
]

IsHeld-now :
    (owner : String) (lease_until : ℕ) (r : Repository) (id k : String)
    → k ≡ id
    → IsHeld owner lease_until
        (record r {
          upload_maintenance =
              put r.upload_maintenance id
                (leased owner lease_until (get_or no_lease r.upload_maintenance id));
        })
        k
unfolding get_or
IsHeld-now owner lease_until r id k e = ground (
  arith,
  get-put_self r.upload_maintenance id
      (leased owner lease_until (get_or no_lease r.upload_maintenance id)),
)

-- Every claim that the loop makes is for an upload that its owner holds after the loop.
lease_uploads-IsHeld :
    (owner : String) (lease_until : ℕ) (xs : List (String × UploadSession)) (r : Repository)
    → AllKeyed xs
    → (claim : UploadMaintenanceClaim) → Memᴰ claim (lease_uploads owner lease_until xs r).0
    → IsHeld owner lease_until (lease_uploads owner lease_until xs r).1 claim.upload.id
unfolding lease_uploads
lease_uploads-IsHeld owner lease_until [] r nil claim m = absurd (Memᴰ.not-nil m)
lease_uploads-IsHeld owner lease_until ((id, u) ∷ xs) r (cons _ _ _ e ks) claim (Memᴰ.head q) =
    subst
      (λ (x : UploadMaintenanceClaim).
        IsHeld owner lease_until (lease_uploads owner lease_until ((id, u) ∷ xs) r).1 x.upload.id)
      (sym q)
      (lease_uploads-keeps owner lease_until xs _ u.id (IsHeld-now owner lease_until r id u.id e))
lease_uploads-IsHeld owner lease_until ((id, u) ∷ xs) r (cons _ _ _ e ks) claim (Memᴰ.tail m) =
    lease_uploads-IsHeld owner lease_until xs _ ks claim m

held_exclusive :
    (owner other : String) (lease_until now stale_before retry_at finished_at : ℕ) (r : Repository)
    (id : String) (u : UploadSession) (ended : UploadStatus) (clean : Bool) (error_code : String)
    → IsHeld owner lease_until r id
    → now < lease_until
    → other ≢ owner
    → (needs_maintenance r now stale_before (id, u) ≡ false)
      × (finish_upload_maintenance other id ended clean retry_at error_code finished_at r
          ≡ reject ErrorCode.invalid_state r)
unfolding needs_maintenance is_blocked finish_upload_maintenance get_or
held_exclusive owner other lease_until now stale_before retry_at finished_at r id u ended clean
      error_code (eo, eu) lt ne =
    ground (arith, str_beq_iff owner other)

-- When uploads stand under their identifiers: after a claim, until its leases end, no upload that it
-- returned is picked by another claim, and an attempt of another owner to finish it is refused with
-- invalid_state and changes nothing.
pub claim_exclusive :
    (owner other : String) (now stale_before lease_until limit : ℕ) (r : Repository)
    (claim : UploadMaintenanceClaim) (now' stale_before' retry_at finished_at : ℕ)
    (u : UploadSession) (ended : UploadStatus) (clean : Bool) (error_code : String)
    → AllKeyed r.uploads
    → Memᴰ claim (claim_uploads_for_maintenance owner now stale_before lease_until limit r).0
    → now' < lease_until
    → other ≢ owner
    → let r' = (claim_uploads_for_maintenance owner now stale_before lease_until limit r).1 in
      (needs_maintenance r' now' stale_before' (claim.upload.id, u) ≡ false)
      × (finish_upload_maintenance other claim.upload.id ended clean retry_at error_code finished_at
            r'
          ≡ reject ErrorCode.invalid_state r')
unfolding claim_uploads_for_maintenance
claim_exclusive owner other now stale_before lease_until limit r claim now' stale_before' retry_at
      finished_at u ended clean error_code ks m lt ne =
    held_exclusive owner other lease_until now' stale_before' retry_at finished_at _ claim.upload.id
      u ended clean error_code
      (lease_uploads-IsHeld owner lease_until _ r
        (first_of-AllKeyed limit _ (
          sort_by-AllKeyed _ _
            (filter-AllKeyed (needs_maintenance r now stale_before) r.uploads ks)))
        claim m)
      lt ne
