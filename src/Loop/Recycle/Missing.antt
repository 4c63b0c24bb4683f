-- ===== src/Loop/Recycle/Missing.antt =====
-- internal/maintenance/loop.go: a purge whose last object is gone already.
use asteria_drive.Prelude.{ℕ, ◌+◌, [], ◌∷◌, List, ◌≡◌, arith, some, string_eq, str_beq_iff}
use asteria_drive.Result.{DriveError, Result, ok, err, ErrorCode}
use asteria_drive.Types.Node.{Blob, PurgePlan}
use asteria_drive.Types.Upload.{RecycleMaintenanceClaim}
use asteria_drive.Types.Storage.{StorageProvider}
use asteria_drive.Memory.State.{Repository, MaintenanceLease}
use asteria_drive.Prelude.Int.{inc64}
use asteria_drive.Dict.{get, put}
use asteria_drive.Memory.Recycle.{prepare_purge}
use asteria_drive.Memory.Maintenance.{release_recycle_maintenance}
use asteria_drive.Service.{World}
use asteria_drive.Loop.{Turn, backoff, maintenance_error_code}
use asteria_drive.Loop.Recycle.{
  delete_objects, purge_planned, purge_claimed, release_claim, process_recycle,
}

module _ {S : Type 0} (provider : StorageProvider S) (turn : Turn)
    (claim : RecycleMaintenanceClaim) where
  -- The lease that is given back, to be taken again after the first delay.
  abbrev pub put_off : DriveError → ℕ → MaintenanceLease → MaintenanceLease
  put_off e now lease = record lease {
    owner = "";
    until = 0;
    not_before = now + backoff turn.random 0;
    error_code = maintenance_error_code e.code;
    attempts = inc64 lease.attempts;
  }

  release_claim_fails :
      (e : DriveError) (now : ℕ) (lease : MaintenanceLease) (w : World S)
      → get w.repository.recycle_maintenance claim.root_id ≡ some lease
      → lease.owner ≡ claim.owner
      → release_claim provider turn claim e now w ≡ (
        err e,
        record w {
          repository = record w.repository {
            recycle_maintenance =
                put w.repository.recycle_maintenance claim.root_id (put_off e now lease);
          };
        },
      )
  unfolding release_claim release_recycle_maintenance
  release_claim_fails e now lease w found mine =
      ground (arith, found, mine, str_beq_iff lease.owner claim.owner)

  -- The deletions go through, but for the last object, which is missing.
  pub data AllButLast : S → List Blob → DriveError → Type 0 where
    last :
        {s : S} {blob : Blob} {e : DriveError}
        → (provider.delete_object blob.object_key s).0 ≡ err e
        → e.code ≡ ErrorCode.not_found
        → AllButLast s (blob ∷ []) e
    earlier :
        {s : S} {blob : Blob} {blobs : List Blob} {e : DriveError}
        → (provider.delete_object blob.object_key s).0 ≡ ok tt
        → AllButLast (provider.delete_object blob.object_key s).1 blobs e
        → AllButLast s (blob ∷ blobs) e

  delete_objects-AllButLast :
      (blobs : List Blob) (so_far : Result (Unit {0})) (e : DriveError) (w : World S)
      → AllButLast w.storage blobs e
      → ((delete_objects provider so_far blobs w).0 ≡ ok (err e))
        × ((delete_objects provider so_far blobs w).1.repository ≡ w.repository)
  unfolding delete_objects
  delete_objects-AllButLast [] so_far e w x = elim x [ ]
  delete_objects-AllButLast (blob ∷ []) so_far e w (last gone missing) =
      ground (arith, gone, missing)
  delete_objects-AllButLast (blob ∷ blobs) so_far e w (earlier done rest) =
      let more =
        delete_objects-AllButLast blobs (ok tt) e
          (record w { storage = (provider.delete_object blob.object_key w.storage).1 }) rest in
      ground (arith, done, more)

  abbrev prepared : World S → Result PurgePlan × Repository
  prepared w =
      prepare_purge claim.identity claim.root_id claim.revision (turn.call.now 0) w.repository

  prepare_keeps :
      (w : World S) → (prepared w).1.recycle_maintenance ≡ w.repository.recycle_maintenance
  unfolding prepare_purge
  prepare_keeps w = ground arith

  purge_claimed_fails :
      (plan : PurgePlan) (e : DriveError) (w : World S)
      → (prepared w).0 ≡ ok plan
      → AllButLast w.storage plan.blobs e
      → ((purge_claimed provider turn claim (turn.call.now 0) w).0 ≡ err e)
        × ((purge_claimed provider turn claim (turn.call.now 0) w).1.repository ≡ (prepared w).1)
  unfolding purge_claimed purge_planned
  purge_claimed_fails plan e w ready missing =
      let stopped =
        delete_objects-AllButLast plan.blobs (ok tt) e (record w { repository = (prepared w).1 })
          missing in
      ground (arith, ready, stopped)

  -- When a held claim's purge is prepared and its deletions go through but the object of the last blob
  -- is missing, the round fails with that error and the purge is not finished: the repository is as the
  -- preparation left it, its blobs and audit log included, but for the lease, which is put off for
  -- another attempt.
  pub process_recycle_missing :
      (plan : PurgePlan) (e : DriveError) (lease : MaintenanceLease) (w : World S)
      → get w.repository.recycle_maintenance claim.root_id ≡ some lease
      → lease.owner ≡ claim.owner
      → (prepared w).0 ≡ ok plan
      → AllButLast w.storage plan.blobs e
      → ((process_recycle provider turn claim w).0 ≡ err e)
        × ((process_recycle provider turn claim w).1.repository ≡ record (prepared w).1 {
          recycle_maintenance =
              put w.repository.recycle_maintenance claim.root_id
                (put_off e (turn.call.now 0) lease);
        })
  unfolding process_recycle
  process_recycle_missing plan e lease w found mine ready missing =
      let (failed, left) = purge_claimed_fails plan e w ready missing in
      let same = prepare_keeps w in
      let released =
        release_claim_fails e (turn.call.now 0) lease
          (purge_claimed provider turn claim (turn.call.now 0) w).1 (rw (left, same) found) mine in
      ground (arith, failed, left, same, released)
