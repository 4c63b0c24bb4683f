-- ===== src/Memory/Upload/Commit.antt =====
-- internal/memory/repository.go, `CommitUpload`: the first commit, its repetition and its conflicts.
use asteria_drive.Prelude.{◌≡◌, Bool, true, false, some, arith, ◌⊎◌, string_eq, str_beq_iff}
use mathlib.Core.Option
use asteria_drive.Dict.{get, get_or}
use asteria_drive.Dict.Laws.{get-put_self}
use asteria_drive.Result.{ok}
use asteria_drive.Types.Node
use asteria_drive.Types.Node.{Node, file, available}
use asteria_drive.Types.Upload.{
  UploadSession, CompleteResult, CommitUploadCommand, object_completed, failed, committed,
}
use asteria_drive.Memory.State.{Repository, no_lease, upload_for, name_exists, visible}
use asteria_drive.Memory.Audit.{CallContext, keep}
use asteria_drive.Memory.Audit.Log.{audited-ok, with_log}
use asteria_drive.Memory.Upload.{
  commit_upload, fail_commit, complete_result, has_directory, committed_event, committed_result,
  committed_session, publish,
}
use asteria_drive.Memory.Upload.Parts.{download_blob}

-- The node, version and blob of a command belong together, as the service makes them.
pub record IsLinked (c : CommitUploadCommand) : Type 0 where
  pub version_of_node : c.node.current_version_id ≡ c.version.id
  pub blob_of_version : c.version.blob_id ≡ c.blob.id
  pub node_tenant : c.node.tenant_id ≡ c.identity.tenant_id
  pub version_tenant : c.version.tenant_id ≡ c.identity.tenant_id
  pub blob_tenant : c.blob.tenant_id ≡ c.identity.tenant_id
  pub node_is_file : c.node.kind ≡ file
  pub node_is_active : c.node.status ≡ Node.active
  pub node_not_trashed : c.node.trashed_root_id ≡ ""
  pub blob_is_available : c.blob.status ≡ available

module _ (ctx : CallContext) (c : CommitUploadCommand) (r : Repository) (s : UploadSession)
    (g : get r.uploads c.session_id ≡ some s) (keyed : s.id ≡ c.session_id) where
  -- The state and the result of a first commit.
  pub commit_published :
      (res : CompleteResult)
      → (commit_upload ctx c r).0 ≡ ok (res, true)
      → ((commit_upload ctx c r).1 ≡ with_log ctx (committed_event c s) (publish c s r))
        × (res ≡ committed_result c s)
        × (s.tenant_id ≡ c.identity.tenant_id)
        × (s.status ≡ object_completed)
        × (s.completion_digest ≡ c.digest)
        × (has_directory r c.identity.tenant_id s.parent_id ≡ true)
        × (name_exists r s.tenant_id s.parent_id s.normalized_name "" ≡ false)
  unfolding commit_upload fail_commit upload_for
  commit_published res h = ground (
    arith,
    audited-ok {A = CompleteResult × Bool} ctx (committed_event c s) keep
        (committed_result c s, true) (res, true) (publish c s r),
    str_beq_iff s.completion_digest c.digest,
    str_beq_iff s.tenant_id c.identity.tenant_id,
  )

  -- A first commit that succeeds, of a session stored under its identifier, has found the session
  -- object-completed with the command's digest, a live parent and a free name, has stored node, version
  -- and blob, and has marked the session committed with the node.
  pub commit_publishes :
      (res : CompleteResult)
      → (commit_upload ctx c r).0 ≡ ok (res, true)
      → (s.status ≡ object_completed)
        × (s.completion_digest ≡ c.digest)
        × (has_directory r c.identity.tenant_id s.parent_id ≡ true)
        × (name_exists r s.tenant_id s.parent_id s.normalized_name "" ≡ false)
        × (get (commit_upload ctx c r).1.nodes c.node.id ≡ some c.node)
        × (get (commit_upload ctx c r).1.versions c.version.id ≡ some c.version)
        × (get (commit_upload ctx c r).1.blobs c.blob.id ≡ some c.blob)
        × (get (commit_upload ctx c r).1.uploads c.session_id ≡ some res.upload)
        × (res.upload.status ≡ committed)
        × (res.upload.committed_node_id ≡ c.node.id)
  commit_publishes res h = let p = commit_published res h in grind (arith, p, get-put_self, keyed)

  replay_at :
      (ctx' : CallContext) (r1 : Repository)
      → IsLinked c
      → s.tenant_id ≡ c.identity.tenant_id
      → s.completion_digest ≡ c.digest
      → get r1.uploads c.session_id ≡ some (committed_session c s)
      → get r1.nodes c.node.id ≡ some c.node
      → get r1.versions c.version.id ≡ some c.version
      → get r1.blobs c.blob.id ≡ some c.blob
      → commit_upload ctx' c r1 ≡ (ok (committed_result c s, false), r1)
  unfolding commit_upload fail_commit upload_for complete_result get_or
  replay_at ctx' r1 l t d gu gn gv gb = ground (
    arith,
    str_beq_iff s.completion_digest c.digest,
    str_beq_iff s.tenant_id c.identity.tenant_id,
    l.version_of_node,
    l.blob_of_version,
  )

  -- After a first commit with a linked node, version and blob, the same command again is answered with
  -- the same result, is not a first commit any more, and changes nothing.
  pub commit_replay :
      (ctx' : CallContext) (res : CompleteResult)
      → IsLinked c
      → (commit_upload ctx c r).0 ≡ ok (res, true)
      → commit_upload ctx' c (commit_upload ctx c r).1
        ≡ (ok (res, false), (commit_upload ctx c r).1)
  commit_replay ctx' res l h =
      let (e, q, t, _, d, _, _) = commit_published res h in
      rw (e, q)
        (replay_at ctx' (with_log ctx (committed_event c s) (publish c s r)) l t d
          (cc (keyed, get-put_self r.uploads s.id (committed_session c s)))
          (get-put_self r.nodes c.node.id c.node) (get-put_self r.versions c.version.id c.version)
          (get-put_self r.blobs c.blob.id c.blob))

  -- After a first commit with a linked node, version and blob, a download of the node finds the
  -- command's node and blob.
  pub commit_then_download :
      (res : CompleteResult)
      → IsLinked c
      → (commit_upload ctx c r).0 ≡ ok (res, true)
      → download_blob c.identity c.node.id (commit_upload ctx c r).1 ≡ ok (c.node, c.blob)
  unfolding download_blob visible
  commit_then_download res l h =
      let (_, _, _, _, n, v, b, _, _, _) = commit_publishes res h in
      ground (
        arith,
        n,
        v,
        b,
        l.version_of_node,
        l.blob_of_version,
        l.node_tenant,
        l.version_tenant,
        l.blob_tenant,
        l.node_is_file,
        l.node_is_active,
        l.node_not_trashed,
        l.blob_is_available,
        str_beq_iff c.node.tenant_id c.identity.tenant_id,
        str_beq_iff c.version.tenant_id c.identity.tenant_id,
        str_beq_iff c.blob.tenant_id c.identity.tenant_id,
        str_beq_iff c.node.trashed_root_id "",
      )

  -- A commit of an object-completed session with its digest, whose parent is gone or whose name is taken
  -- meanwhile, publishes nothing: the session fails, and its object is left for the cleanup.
  pub commit_conflict :
      s.status ≡ object_completed
      → s.completion_digest ≡ c.digest
      → s.tenant_id ≡ c.identity.tenant_id
      → (has_directory r c.identity.tenant_id s.parent_id ≡ false)
        ⊎ (name_exists r s.tenant_id s.parent_id s.normalized_name "" ≡ true)
      → let r' = (commit_upload ctx c r).1 in
        (r'.nodes ≡ r.nodes)
        × (r'.blobs ≡ r.blobs)
        × (r'.versions ≡ r.versions)
        × (Option.map (λ (x : UploadSession). x.status) (get r'.uploads c.session_id) ≡ some failed)
        × ((get_or no_lease r'.upload_maintenance c.session_id).cleanup_pending ≡ true)
  unfolding commit_upload fail_commit upload_for get_or
  commit_conflict st d t w = grind (
    arith,
    get-put_self,
    str_beq_iff s.completion_digest c.digest,
    str_beq_iff s.tenant_id c.identity.tenant_id,
  )
