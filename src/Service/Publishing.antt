-- ===== src/Service/Publishing.antt =====
-- internal/drive/service.go: `CompleteUpload`, from the frozen parts to the published file, and `AbortUpload`.
pub mod Files
pub mod Published
pub mod Sessions
use asteria_drive.Prelude.{
  ℕ, String, false, none, List, [], ◌&&◌, ◌||◌, ◌==◌, string_eq, if◌then◌else◌,
}
use asteria_drive.Prelude.Int.{pos}
use asteria_drive.Result.{DriveError, ok, err, code_of}
use asteria_drive.Types.Access.{Identity}
use asteria_drive.Types.Node
use asteria_drive.Types.Node.{
  Node, Blob, FileVersion, file, available, no_node, no_blob, no_version,
}
use asteria_drive.Types.Upload.{
  UploadSession, CompletedPart, CommitUploadCommand, upload_status_eq, committed, object_completed,
  aborted, failed,
}
use asteria_drive.Types.Storage.{ObjectInfo, StorageProvider}
use asteria_drive.Platform.{Platform}
use asteria_drive.Memory.Upload
use asteria_drive.Memory.Upload.{
  begin_complete, mark_object_completed, commit_upload, mark_upload_cleanup_complete,
}
use asteria_drive.Service.{
  Call, Action, pure, raise, lift, on_repository, on_storage, attempt, drawn, ignore, storage_step,
  ◌>>=◌, ◌>>◌, require_id, is_missing,
}
use asteria_drive.Service.Parts.{validate_parts, abort_multipart}
use asteria_drive.Service.Completion.{
  CompleteOutput, is_name_conflict, failed_upload_has_object, parts_digest, join_parts,
  accept_object, note_cleanup,
}

-- What a commit publishes: the blob, the version and the node of an object.
abbrev pub commit_command :
    Identity
    → String
    → UploadSession
    → String
    → ObjectInfo
    → String
    → String
    → String
    → List CompletedPart
    → ℕ
    → CommitUploadCommand
commit_command identity upload_id session digest object blob_id node_id version_id parts now =
    record {
      identity = identity;
      session_id = upload_id;
      digest = digest;
      blob = record {
        id = blob_id;
        tenant_id = identity.tenant_id;
        bucket = object.bucket;
        object_key = object.object_key;
        size = object.size;
        mime_type = session.mime_type;
        checksum = object.checksum;
        checksum_status = object.checksum_status;
        status = available;
        reference_count = pos 1;
        created_at = now;
        deleted_at = none;
      };
      version = record {
        id = version_id;
        tenant_id = identity.tenant_id;
        node_id = node_id;
        blob_id = blob_id;
        size = object.size;
        mime_type = session.mime_type;
        checksum = object.checksum;
        created_by = identity.principal_id;
        created_at = now;
      };
      node = record no_node {
        id = node_id;
        tenant_id = identity.tenant_id;
        parent_id = session.parent_id;
        kind = file;
        display_name = session.display_name;
        normalized_name = session.normalized_name;
        current_version_id = version_id;
        size = object.size;
        mime_type = session.mime_type;
        status = Node.active;
        revision = pos 1;
        created_at = now;
        updated_at = now;
      };
      parts = parts;
      now = now;
    }

-- The command of a repeated completion, which the repository answers from what it has.
abbrev replay_command : Identity → String → String → CommitUploadCommand
replay_command identity upload_id digest = record {
  identity = identity;
  session_id = upload_id;
  digest = digest;
  blob = no_blob;
  version = no_version;
  node = no_node;
  parts = [];
  now = 0;
}

module _ {S : Type 0} (provider : StorageProvider S) where
  -- The object is deleted, and when that goes through the cleanup is noted.
  unfoldable pub delete_and_note : Identity → UploadSession → Action S (Unit {0})
  delete_and_note identity session = do
    released ← attempt (on_storage (provider.delete_object session.object_key))
    note_cleanup identity session.id released

  -- A commit that meets a taken name or a missing parent deletes the object.
  unfoldable pub undo_object : Identity → UploadSession → DriveError → Action S (Unit {0})
  undo_object identity session e =
      if is_name_conflict (code_of e) || is_missing (code_of e)
      then delete_and_note identity session
      else pure tt

  -- The last steps of `CompleteUpload`: the identifiers and the commit.
  unfoldable pub publish_object :
      Call
      → Identity
      → String
      → UploadSession
      → String
      → List CompletedPart
      → ObjectInfo
      → Action S CompleteOutput
  publish_object call identity upload_id session digest parts object = do
    blob_id ← drawn (call.new_id 0)
    node_id ← drawn (call.new_id 1)
    version_id ← drawn (call.new_id 2)
    answer ← attempt (
        on_repository (
          commit_upload call.context (
            commit_command identity upload_id session digest object blob_id node_id version_id parts
              (call.now 3))))
    elim answer [
      | ok (result, first) ↦
          pure (record { upload = result.upload; node = result.node; first = first })
      | err e ↦ undo_object identity session e >> raise e
    ]

module _ (platform : Platform) {S : Type 0} (provider : StorageProvider S) where
  -- The object of a session, joined now or before.
  unfoldable pub find_object :
      Call → Identity → UploadSession → String → List CompletedPart → Action S ObjectInfo
  find_object call identity session digest parts =
      if session.status == object_completed
      then storage_step (provider.stat_object session.object_key)
      else join_parts platform provider call identity session digest parts

  unfoldable pub mark_completed : Call → Identity → String → UploadSession → Action S UploadSession
  mark_completed call identity upload_id session =
      if session.status == object_completed
      then pure session
      else on_repository (mark_object_completed identity upload_id (call.now 2))

  -- A session that has been published: the answer is what the repository has.
  unfoldable pub replay_completion : Call → Identity → String → String → Action S CompleteOutput
  replay_completion call identity upload_id digest = do
    answer ← on_repository (commit_upload call.context (replay_command identity upload_id digest))
    pure (record { upload = answer.0.upload; node = answer.0.node; first = false })

  unfoldable pub complete_session :
      Call
      → Identity
      → String
      → UploadSession
      → String
      → List CompletedPart
      → Action S CompleteOutput
  complete_session call identity upload_id session digest parts = do
    found ← find_object call identity session digest parts
    object ← accept_object platform provider call identity session digest found
    session ← mark_completed call identity upload_id session
    publish_object provider call identity upload_id session digest parts object

  unfoldable pub complete_upload :
      Call → Identity → String → List CompletedPart → Action S CompleteOutput
  complete_upload call identity upload_id parts = do
    require_id upload_id
    lift (validate_parts platform parts)
    let digest : String = parts_digest platform parts
    session ← on_repository (begin_complete identity upload_id digest parts (call.now 0))
    if session.status == committed
        then replay_completion call identity upload_id digest
        else complete_session call identity upload_id session digest parts

  unfoldable pub abort_upload : Call → Identity → String → Action S (Unit {0})
  abort_upload call identity upload_id = do
    require_id upload_id
    session ← on_repository (Upload.abort_upload identity upload_id aborted (call.now 0))
    if session.status == failed && failed_upload_has_object session.failure_code
        then storage_step (provider.delete_object session.object_key)
        else abort_multipart provider session
    ignore (on_repository (mark_upload_cleanup_complete identity session.id))
