-- ===== src/Memory/Upload/Machine.antt =====
-- internal/memory/repository.go: the diagram of the states of an upload session, and the write of each method.
use asteria_drive.Prelude.{
  ℕ, ◌≡◌, String, some, List, arith, ◌⊎◌, inl, inr, str_beq_iff, string_eq, Bool-cases,
}
use asteria_drive.Memory.Audit.Log.{audited-keep}
use asteria_drive.Prelude.Int.{inc64}
use asteria_drive.Dict.{get, put}
use asteria_drive.Types.Access.{Identity}
use asteria_drive.Types.Upload.{
  UploadSession, CompletedPart, CommitUploadCommand, UploadStatus, created, uploading, completing,
  object_completed, committed, aborted, expired, failed, upload_failure_parent_unavailable,
  upload_failure_name_conflict,
}
use asteria_drive.Memory.State.{Repository, upload_for, name_exists}
use asteria_drive.Memory.Audit.{CallContext}
use asteria_drive.Memory.Upload.{
  mark_uploading, begin_complete, fail_upload_completion, mark_object_completed, abort_upload,
  commit_upload, moved, committed_session, has_directory, fail_commit,
}

-- A session that can still be aborted.
pub data IsOpen : UploadStatus → Type 0 where
  created_open : IsOpen created
  uploading_open : IsOpen uploading

-- The diagram.
infix 40 ◌⟶◌
pub data ◌⟶◌ : UploadStatus → UploadStatus → Type 0 where
  begin_upload : created ⟶ uploading
  freeze : {s : UploadStatus} → IsOpen s → s ⟶ completing
  assemble : completing ⟶ object_completed
  reject_object : completing ⟶ failed
  publish : object_completed ⟶ committed
  reject_commit : object_completed ⟶ failed
  abort : {s : UploadStatus} → IsOpen s → s ⟶ aborted
  expire : {s : UploadStatus} → IsOpen s → s ⟶ expired
  give_up : {s : UploadStatus} → IsOpen s → s ⟶ failed

pub ruleset edges = (
  begin_upload, freeze, assemble, reject_object, publish, reject_commit, abort, expire, give_up,
  created_open, uploading_open,
)

-- One step of a session: an edge, one more revision, the same identifier, and a completion digest that stays
-- once it is set.
pub record Moves (s s' : UploadSession) : Type 0 where
  pub edge : s.status ⟶ s'.status
  pub counted : s'.revision ≡ inc64 s.revision
  pub same_id : s'.id ≡ s.id
  pub frozen : (s.completion_digest ≡ "") ⊎ (s'.completion_digest ≡ s.completion_digest)

-- What a call does to a session `s` under `id` when it writes `s'`: nothing, or one step.
abbrev pub Writes : Repository → Repository → String → UploadSession → UploadSession → Type 0
Writes r r' id s s' = (r'.uploads ≡ r.uploads) ⊎ ((r'.uploads ≡ put r.uploads id s') × Moves s s')

module _ (r : Repository) (i : Identity) (id : String) (now : ℕ) (s : UploadSession)
    (g : get r.uploads id ≡ some s) where
  pub mark-Writes : Writes r (mark_uploading i id now r).1 id s (moved uploading now s)
  unfolding mark_uploading upload_for
  mark-Writes = grind (arith, edges)

  pub begin-Writes :
      (digest : String) (parts : List CompletedPart)
      → Writes r
          (begin_complete i id digest parts now r).1
          id
          s
          (record (moved completing now s) { completion_digest = digest })
  unfolding begin_complete upload_for
  begin-Writes digest parts = grind (arith, edges, str_beq_iff s.completion_digest)

  pub fail-Writes :
      (digest code : String)
      → Writes r
          (fail_upload_completion i id digest code now r).1
          id
          s
          (record (moved failed now s) { failure_code = code })
  unfolding fail_upload_completion upload_for
  fail-Writes digest code = grind (arith, edges)

  pub object-Writes :
      Writes r (mark_object_completed i id now r).1 id s (moved object_completed now s)
  unfolding mark_object_completed upload_for
  object-Writes = grind (arith, edges)

  pub abort-Writes :
      (target : UploadStatus)
      → Writes r (abort_upload i id target now r).1 id s (moved target now s)
  unfolding abort_upload upload_for
  abort-Writes target = grind (arith, edges)

-- The commit writes the committed session or, where the parent or the name is not free, a failed one.
pub commit-Writes :
    (ctx : CallContext) (c : CommitUploadCommand) (r : Repository) (s : UploadSession)
    → get r.uploads c.session_id ≡ some s
    → s.id ≡ c.session_id
    → Writes r (commit_upload ctx c r).1 c.session_id s (committed_session c s)
      ⊎ ((code : String) × Writes r
            (commit_upload ctx c r).1
            c.session_id
            s
            (record (moved failed c.now s) { failure_code = code }))
unfolding commit_upload fail_commit upload_for
commit-Writes ctx c r s g k = elim (Bool-cases (has_directory r c.identity.tenant_id s.parent_id)) [
  | inl parent ↦ elim (Bool-cases (name_exists r s.tenant_id s.parent_id s.normalized_name "")) [
    | inl taken ↦ inr (upload_failure_name_conflict, grind (arith, edges))
    | inr free ↦ inl (grind (arith, edges, audited-keep))
  ]
  | inr missing ↦ inr (upload_failure_parent_unavailable, grind (arith, edges))
]
