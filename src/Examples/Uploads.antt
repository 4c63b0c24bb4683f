-- ===== src/Examples/Uploads.antt =====
-- The theorems on upload sessions at a session that is committed to `docs/a.txt`.
use asteria_drive.Prelude.{
  ◌≡◌, ◌≢◌, true, false, some, [], ◌∷◌, arith, refl, inl, string_eq, str_beq, str_beq_iff,
}
use mathlib.Core.Option
use asteria_drive.Dict.{get, get_or, put, any_entry}
use asteria_drive.Result.{ok}
use asteria_drive.Text.{json_map_size}
use asteria_drive.Types.Upload.{
  UploadSession, created, completing, object_completed, committed, aborted, failed, is_terminal,
}
use asteria_drive.Memory.State.{
  Repository, no_lease, active_node, visible, upload_for, name_exists, clashes,
}
use asteria_drive.Memory.Audit.{append_audit, audited, metadata_is_bounded}
use asteria_drive.Memory.Upload.{commit_upload, committed_result, has_directory}
use asteria_drive.Memory.Upload.Parts.{download_blob}
use asteria_drive.Memory.Upload.Calls.{
  mark, commit, abort_to, perform, perform_all, IsKeyed, Follows, perform-Follows,
}
use asteria_drive.Memory.Upload.History.{terminal_absorbs, digest_frozen, perform_all-IsKeyed}
use asteria_drive.Memory.Upload.Commit.{
  IsLinked, commit_publishes, commit_replay, commit_then_download, commit_conflict,
}
use asteria_drive.Examples.Fixtures.{
  context, carol, digest_a, session, with_session, commit_command,
}

keyed : (s : UploadSession) → IsKeyed (with_session s)
unfolding get
keyed s = record { at_key = λ id t g. ground (arith, str_beq_iff s.id id) }

stored : (s : UploadSession) → get (with_session s).uploads s.id ≡ some s
unfolding get
stored s = ground (arith, str_beq_iff s.id s.id)

perform-Follows_example :
    Follows
      (session created "")
      (perform (mark carol "upload" 7) (with_session (session created "")))
      "upload"
perform-Follows_example =
    perform-Follows (mark carol "upload" 7) (with_session (session created ""))
      (keyed (session created "")) "upload" (session created "") (stored (session created ""))

terminal_absorbs_example :
    get
      (perform_all
        (mark carol "upload" 7 ∷ abort_to carol "upload" aborted 8 ∷ [])
        (with_session (session committed digest_a))).uploads
      "upload"
    ≡ some (session committed digest_a)
terminal_absorbs_example =
    terminal_absorbs (mark carol "upload" 7 ∷ abort_to carol "upload" aborted 8 ∷ [])
      (with_session (session committed digest_a)) (keyed (session committed digest_a)) "upload"
      (session committed digest_a) (stored (session committed digest_a))
      (unfold is_terminal in refl)

digest_set : digest_a ≢ ""
unfolding str_beq
digest_set = ground (arith, str_beq_iff digest_a "")

digest_frozen_example :
    (s' : UploadSession) × (get
        (perform_all
          (mark carol "upload" 7 ∷ commit context commit_command ∷ [])
          (with_session (session completing digest_a))).uploads
        "upload"
      ≡ some s')
    × (s'.completion_digest ≡ digest_a)
digest_frozen_example =
    digest_frozen (mark carol "upload" 7 ∷ commit context commit_command ∷ [])
      (with_session (session completing digest_a)) (keyed (session completing digest_a)) "upload"
      (session completing digest_a) (stored (session completing digest_a)) digest_set

perform_all-IsKeyed_example :
    IsKeyed (perform_all (mark carol "upload" 7 ∷ []) (with_session (session created "")))
perform_all-IsKeyed_example =
    perform_all-IsKeyed (mark carol "upload" 7 ∷ []) (with_session (session created ""))
      (keyed (session created ""))

linked : IsLinked commit_command
linked = record {
  version_of_node = refl;
  blob_of_version = refl;
  node_tenant = refl;
  version_tenant = refl;
  blob_tenant = refl;
  node_is_file = refl;
  node_is_active = refl;
  node_not_trashed = refl;
  blob_is_available = refl;
}

abbrev ready : Repository
ready = with_session (session object_completed digest_a)

committed_once :
    (commit_upload context commit_command ready).0
    ≡ ok (committed_result commit_command (session object_completed digest_a), true)
unfolding commit_upload upload_for get get_or put has_directory active_node visible name_exists
    clashes any_entry audited append_audit metadata_is_bounded json_map_size str_beq
committed_once = refl

commit_publishes_example :
    (object_completed ≡ object_completed)
    × (digest_a ≡ digest_a)
    × (has_directory ready carol.tenant_id "docs" ≡ true)
    × (name_exists ready carol.tenant_id "docs" "a.txt" "" ≡ false)
    × (get (commit_upload context commit_command ready).1.nodes "file" ≡ some commit_command.node)
    × (get (commit_upload context commit_command ready).1.versions "version"
        ≡ some commit_command.version)
    × (get (commit_upload context commit_command ready).1.blobs "blob" ≡ some commit_command.blob)
    × (get (commit_upload context commit_command ready).1.uploads "upload"
        ≡ some (committed_result commit_command (session object_completed digest_a)).upload)
    × (committed ≡ committed)
    × (commit_command.node.id ≡ commit_command.node.id)
commit_publishes_example =
    commit_publishes context commit_command ready (session object_completed digest_a)
      (stored (session object_completed digest_a)) refl
      (committed_result commit_command (session object_completed digest_a)) committed_once

commit_replay_example :
    commit_upload context commit_command (commit_upload context commit_command ready).1 ≡ (
      ok (committed_result commit_command (session object_completed digest_a), false),
      (commit_upload context commit_command ready).1,
    )
commit_replay_example =
    commit_replay context commit_command ready (session object_completed digest_a)
      (stored (session object_completed digest_a)) refl context
      (committed_result commit_command (session object_completed digest_a)) linked committed_once

commit_then_download_example :
    download_blob carol "file" (commit_upload context commit_command ready).1
    ≡ ok (commit_command.node, commit_command.blob)
commit_then_download_example =
    commit_then_download context commit_command ready (session object_completed digest_a)
      (stored (session object_completed digest_a)) refl
      (committed_result commit_command (session object_completed digest_a)) linked committed_once

-- The directory has no parent any more.
abbrev orphaned : Repository
orphaned = record ready { nodes = [] }

no_parent : has_directory orphaned carol.tenant_id "docs" ≡ false
unfolding has_directory active_node get
no_parent = refl

commit_conflict_example :
    let r' = (commit_upload context commit_command orphaned).1 in
    (r'.nodes ≡ orphaned.nodes)
    × (r'.blobs ≡ orphaned.blobs)
    × (r'.versions ≡ orphaned.versions)
    × (Option.map (λ (x : UploadSession). x.status) (get r'.uploads "upload") ≡ some failed)
    × ((get_or no_lease r'.upload_maintenance "upload").cleanup_pending ≡ true)
commit_conflict_example =
    commit_conflict context commit_command orphaned (session object_completed digest_a)
      (stored (session object_completed digest_a)) refl refl refl refl (inl no_parent)
