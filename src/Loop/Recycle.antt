-- ===== src/Loop/Recycle.antt =====
-- internal/maintenance/loop.go: the purge of what has been in the recycle bin for long enough.
pub mod Missing
use asteria_drive.Prelude.{ℕ, ◌+◌, ◌-◌, List, [], ◌∷◌, if◌then◌else◌}
use asteria_drive.Prelude.Int.{int_eq}
use asteria_drive.Result.{DriveError, Result, ok, err, code_of}
use asteria_drive.Types.Node.{Blob, PurgePlan}
use asteria_drive.Types.Upload.{upload_status_eq, RecycleMaintenanceClaim}
use asteria_drive.Types.Storage.{StorageProvider}
use asteria_drive.Memory.Recycle.{prepare_purge, finish_purge}
use asteria_drive.Memory.Maintenance.{claim_recycle_for_maintenance, release_recycle_maintenance}
use asteria_drive.Service.{
  Action, pure, raise, lift, on_repository, on_storage, attempt, ignore, ◌>>=◌, ◌>>◌, is_missing,
}
use asteria_drive.Loop.{Loop, Turn, backoff, maintenance_error_code}

module _ {S : Type 0} (provider : StorageProvider S) where
  -- The loop of `processRecycle` over the objects: it goes on past one that is missing, and its result is
  -- that of the last deletion.
  unfoldable pub delete_objects : Result (Unit {0}) → List Blob → Action S (Result (Unit {0}))
  delete_objects last [] = pure last
  delete_objects last (blob ∷ blobs) = do
    answer ← attempt (on_storage (provider.delete_object blob.object_key))
    elim answer [
      | ok _ ↦ delete_objects (ok tt) blobs
      | err e ↦ if is_missing (code_of e) then delete_objects (err e) blobs else pure (err e)
    ]

  unfoldable pub release_claim :
      Turn → RecycleMaintenanceClaim → DriveError → ℕ → Action S (Unit {0})
  release_claim turn claim e now = do
    on_repository (
        release_recycle_maintenance claim.owner claim.root_id (now + backoff turn.random 0)
          (maintenance_error_code (code_of e)))
    raise e

  unfoldable pub purge_planned :
      Turn → RecycleMaintenanceClaim → PurgePlan → ℕ → Action S (Unit {0})
  purge_planned turn claim plan now = do
    deleted ← delete_objects (ok tt) plan.blobs
    lift deleted
    on_repository (finish_purge turn.call.context claim.identity plan now)

  unfoldable pub purge_claimed : Turn → RecycleMaintenanceClaim → ℕ → Action S (Unit {0})
  purge_claimed turn claim now = do
    plan ← on_repository (prepare_purge claim.identity claim.root_id claim.revision now)
    purge_planned turn claim plan now

  unfoldable pub process_recycle : Turn → RecycleMaintenanceClaim → Action S (Unit {0})
  process_recycle turn claim = do
    purged ← attempt (purge_claimed turn claim (turn.call.now 0))
    elim purged [ ok _ ↦ pure tt | err e ↦ release_claim turn claim e (turn.call.now 0) ]

  unfoldable pub process_recycled :
      (ℕ → Turn) → ℕ → List RecycleMaintenanceClaim → Action S (Unit {0})
  process_recycled turns k [] = pure tt
  process_recycled turns k (claim ∷ claims) =
      ignore (process_recycle (turns k) claim) >> process_recycled turns (k + 1) claims

  unfoldable pub run_recycle : Loop → (ℕ → Turn) → ℕ → Action S (Unit {0})
  run_recycle l turns now = do
    claims ← on_repository (λ r.
        let (claims, r') =
          claim_recycle_for_maintenance l.owner (now - l.recycle_retention) now
            (now + l.lease_duration) l.batch_size r in
        (ok claims, r'))
    process_recycled turns 0 claims
