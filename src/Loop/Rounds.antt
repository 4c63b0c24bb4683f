-- ===== src/Loop/Rounds.antt =====
-- internal/maintenance/loop.go: one round of the loop.
use asteria_drive.Prelude.{ℕ}
use asteria_drive.Prelude.Int.{int_eq}
use asteria_drive.Result.{ok}
use asteria_drive.Types.Upload.{upload_status_eq}
use asteria_drive.Types.Storage.{StorageProvider}
use asteria_drive.Memory.Maintenance.{delete_expired_idempotency}
use asteria_drive.Service.{Action, on_repository, ◌>>◌}
use asteria_drive.Loop.{Loop, Turn}
use asteria_drive.Loop.Uploads.{run_uploads}
use asteria_drive.Loop.Recycle.{run_recycle}

module _ {S : Type 0} (provider : StorageProvider S) where
  unfoldable pub run_idempotency : Loop → ℕ → Action S ℕ
  run_idempotency l now =
      on_repository
        (λ r. let (count, r') = delete_expired_idempotency now l.batch_size r in (ok count, r'))

  -- `RunOnce`, with the clock's reading at the start of each of its tasks.
  unfoldable pub run_once : Loop → (ℕ → Turn) → (ℕ → Turn) → ℕ → ℕ → ℕ → Action S ℕ
  run_once l upload_turns recycle_turns uploads_at recycle_at idempotency_at = do
    run_uploads provider l upload_turns uploads_at
    run_recycle provider l recycle_turns recycle_at
    run_idempotency l idempotency_at
