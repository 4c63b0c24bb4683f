-- ===== src/Memory/Maintenance.antt =====
-- internal/memory/maintenance.go: leases on uploads and on recycled nodes, and expired claims.
pub mod Leases
use asteria_drive.Prelude.{
  ℕ, String, Bool, true, false, Option, none, some, List, [], ◌∷◌, ◌&&◌, ◌||◌, ltb, not, ◌==◌,
  string_eq, nat_eq, length, map, filter, sort_by, take, if◌then◌else◌,
}
use asteria_drive.Prelude.Int.{ℤ, inc64}
use asteria_drive.Dict.{Dict, get, get_or, put, delete}
use asteria_drive.Text.{str_ltb}
use asteria_drive.Result.{Result, ErrorCode}
use asteria_drive.Types.Access.{Identity}
use asteria_drive.Types.Idempotency.{IdempotencyRecord}
use asteria_drive.Types.Node
use asteria_drive.Types.Node.{Node, node_status_eq, no_node}
use asteria_drive.Types.Upload.{
  UploadSession, UploadStatus, upload_status_eq, created, uploading, completing, object_completed,
  UploadMaintenanceClaim, RecycleMaintenanceClaim,
}
use asteria_drive.Memory.State.{Repository, MaintenanceLease, no_lease, Outcome, accept, reject}

-- The lease is held until later than `now`, or is not to be taken before a later time.
unfoldable pub is_blocked : MaintenanceLease → ℕ → Bool
is_blocked lease now =
    (not (lease.until == 0) && ltb now lease.until)
    || (not (lease.not_before == 0) && ltb now lease.not_before)

unfoldable pub is_due : UploadSession → ℕ → Bool
is_due u now = (u.status == created || u.status == uploading) && not (ltb now u.expires_at)

unfoldable pub is_stale : UploadSession → ℕ → Bool
is_stale u stale_before =
    (u.status == completing || u.status == object_completed) && not (ltb stale_before u.updated_at)

-- An upload that the loop of `ClaimUploadsForMaintenance` takes.
unfoldable pub needs_maintenance : Repository → ℕ → ℕ → String × UploadSession → Bool
needs_maintenance r now stale_before (id, u) =
    let lease = get_or no_lease r.upload_maintenance id in
    not (is_blocked lease now)
    && (is_due u now
        || is_stale u stale_before
        || lease.cleanup_pending
        || not (lease.error_code == ""))

-- `if limit > 0 && len(ids) > limit { ids = ids[:limit] }`
abbrev pub first_of : {A : Type 0} → ℕ → List A → List A
first_of limit xs = if ltb 0 limit && ltb limit (length xs) then take limit xs else xs

abbrev pub leased : String → ℕ → MaintenanceLease → MaintenanceLease
leased owner lease_until lease = record lease { owner = owner; until = lease_until }

-- The last loop of `ClaimUploadsForMaintenance`: takes each lease and makes its claim.
unfoldable pub lease_uploads :
    String
    → ℕ
    → List (String × UploadSession)
    → Repository
    → List UploadMaintenanceClaim × Repository
lease_uploads owner lease_until [] r = ([], r)
lease_uploads owner lease_until ((id, u) ∷ rest) r =
    let lease = leased owner lease_until (get_or no_lease r.upload_maintenance id) in
    let (claims, r') =
      lease_uploads owner lease_until rest
        (record r { upload_maintenance = put r.upload_maintenance id lease }) in
    (
      record {
        upload = u;
        owner = owner;
        cleanup_pending = lease.cleanup_pending;
        attempts = lease.attempts;
      }
          ∷ claims,
      r',
    )

unfoldable pub claim_uploads_for_maintenance :
    String → ℕ → ℕ → ℕ → ℕ → Repository → List UploadMaintenanceClaim × Repository
claim_uploads_for_maintenance owner now stale_before lease_until limit r =
    lease_uploads owner lease_until
      (first_of limit (
        sort_by (λ a b. ltb a.1.expires_at b.1.expires_at)
          (filter (needs_maintenance r now stale_before) r.uploads)))
      r

-- The lease that `FinishUploadMaintenance` leaves.
abbrev pub finished : Bool → ℕ → String → MaintenanceLease → MaintenanceLease
finished cleanup_complete retry_at error_code lease =
    let clean = cleanup_complete && error_code == "" in
    record lease {
      owner = "";
      until = 0;
      not_before = if clean then 0 else retry_at;
      error_code = error_code;
      cleanup_pending = not cleanup_complete;
      attempts = if error_code == "" then lease.attempts else inc64 lease.attempts;
    }

unfoldable pub finish_upload_maintenance :
    String → String → UploadStatus → Bool → ℕ → String → ℕ → Repository → Outcome (Unit {0})
finish_upload_maintenance owner upload_id status cleanup_complete retry_at error_code now r =
    elim (get r.upload_maintenance upload_id) [
      | none ↦ reject ErrorCode.invalid_state r
      | some lease ↦
          if not (lease.owner == owner)
          then reject ErrorCode.invalid_state r
          else elim (get r.uploads upload_id) [
            | none ↦ reject ErrorCode.invalid_state r
            | some u ↦ accept tt (record r {
              uploads =
                  put r.uploads upload_id
                    (record u { status = status; updated_at = now; revision = inc64 u.revision });
              upload_maintenance =
                  put r.upload_maintenance upload_id
                    (finished cleanup_complete retry_at error_code lease);
            })
          ]
    ]

abbrev deleted_by : Option ℕ → ℕ → Bool
deleted_by none cutoff = false
deleted_by (some t) cutoff = not (ltb cutoff t)

-- A node that the loop of `ClaimRecycleForMaintenance` takes.
unfoldable pub needs_purge : Repository → ℕ → ℕ → String × Node → Bool
needs_purge r cutoff now (id, n) =
    n.trashed_root_id == id
    && (n.status == Node.trashed || n.status == Node.purging)
    && deleted_by n.deleted_at cutoff
    && not (is_blocked (get_or no_lease r.recycle_maintenance id) now)

-- The last loop of `ClaimRecycleForMaintenance`.
unfoldable pub lease_recycled :
    String → ℕ → ℕ → List String → Repository → List RecycleMaintenanceClaim × Repository
lease_recycled owner now lease_until [] r = ([], r)
lease_recycled owner now lease_until (id ∷ ids) r =
    let n = record (get_or no_node r.nodes id) { status = Node.purging; updated_at = now } in
    let (claims, r') = lease_recycled owner now lease_until ids (record r {
      nodes = put r.nodes id n;
      recycle_maintenance =
          put r.recycle_maintenance id
            (leased owner lease_until (get_or no_lease r.recycle_maintenance id));
    }) in
    (
      record {
        identity = record { tenant_id = n.tenant_id; principal_id = "" };
        root_id = id;
        revision = n.revision;
        owner = owner;
      }
          ∷ claims,
      r',
    )

unfoldable pub claim_recycle_for_maintenance :
    String → ℕ → ℕ → ℕ → ℕ → Repository → List RecycleMaintenanceClaim × Repository
claim_recycle_for_maintenance owner cutoff now lease_until limit r =
    lease_recycled owner now lease_until
      (first_of limit
        (sort_by str_ltb (map (λ e. e.0) (filter (needs_purge r cutoff now) r.nodes))))
      r

unfoldable pub release_recycle_maintenance :
    String → String → ℕ → String → Repository → Outcome (Unit {0})
release_recycle_maintenance owner root_id retry_at error_code r =
    elim (get r.recycle_maintenance root_id) [
      | none ↦ reject ErrorCode.invalid_state r
      | some lease ↦
          if not (lease.owner == owner)
          then reject ErrorCode.invalid_state r
          else accept tt (record r {
            recycle_maintenance = put r.recycle_maintenance root_id (record lease {
              owner = "";
              until = 0;
              not_before = retry_at;
              error_code = error_code;
              attempts = inc64 lease.attempts;
            });
          })
    ]

unfoldable pub delete_keys :
    List String → Dict String IdempotencyRecord → Dict String IdempotencyRecord
delete_keys [] m = m
delete_keys (k ∷ ks) m = delete_keys ks (delete m k)

-- How many expired claims were deleted, and the repository without them.
unfoldable pub delete_expired_idempotency : ℕ → ℕ → Repository → ℕ × Repository
unfolding delete_keys
delete_expired_idempotency now limit r =
    let keys = first_of limit (
      sort_by str_ltb
        (map (λ e. e.0) (filter (λ e. not (ltb now e.1.expires_at)) r.idempotency))) in
    (length keys, record r { idempotency = delete_keys keys r.idempotency })
