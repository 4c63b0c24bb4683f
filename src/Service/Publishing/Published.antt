-- ===== src/Service/Publishing/Published.antt =====
-- internal/drive/service.go: what a first completion of an upload has published.
use mathlib.Core.Path.{subst}
use asteria_drive.Prelude.{
  String, true, List, ◌≡◌, ◌≢◌, inl, inr, sym, ◌∙◌, arith, Bool-cases, ◌==◌, if◌then◌else◌,
  string_eq,
}
use asteria_drive.Result.{Result, ok}
use asteria_drive.Types.Access.{Identity}
use asteria_drive.Types.Upload.{UploadSession, CompletedPart, committed, upload_status_eq}
use asteria_drive.Types.Storage.{ObjectInfo, StorageProvider}
use asteria_drive.Platform.{Platform}
use asteria_drive.Memory.State.{Repository, Outcome}
use asteria_drive.Memory.Upload.{begin_complete}
use asteria_drive.Memory.Upload.Calls
use asteria_drive.Memory.Upload.Calls.{IsKeyed, perform, perform-IsKeyed, mark_object}
use asteria_drive.Service.{Call, World, Action, ◌>>=◌, lift, on_repository, require_id}
use asteria_drive.Service.Steps.{>>=-ok}
use asteria_drive.Service.Completion.{CompleteOutput, parts_digest}
use asteria_drive.Service.Parts.{validate_parts}
use asteria_drive.Service.Publishing.{replay_completion, complete_session, complete_upload}
use asteria_drive.Service.Publishing.Files.{Delivers}
use asteria_drive.Service.Publishing.Sessions.{joined_storage, complete_session-Delivers}

module _ (platform : Platform) {S : Type 0} (provider : StorageProvider S) (call : Call)
    (identity : Identity) (upload_id : String) (parts : List CompletedPart) where
  -- What is done with the session whose completion has begun, and the calls before it.
  settle : UploadSession → Action S CompleteOutput
  settle session =
      if session.status == committed
      then replay_completion platform provider call identity upload_id (parts_digest platform parts)
      else complete_session platform provider call identity upload_id session
          (parts_digest platform parts) parts

  abbrev begin : Repository → Outcome UploadSession
  begin = begin_complete identity upload_id (parts_digest platform parts) parts (call.now 0)

  begin_and_settle : Action S CompleteOutput
  unfolding settle
  begin_and_settle = on_repository begin >>= settle

  checked : Action S CompleteOutput
  unfolding begin_and_settle
  checked = lift (validate_parts platform parts) >>= λ _. begin_and_settle

  -- A file stands for what the storage answers on the session.
  abbrev pub Delivered : UploadSession → S → CompleteOutput → Repository → Type 0
  Delivered session s out r =
      (found : ObjectInfo) × ((provider.stat_object session.object_key (
          joined_storage platform provider call identity upload_id session
            (parts_digest platform parts) parts s)).0
        ≡ ok found)
      × Delivers identity upload_id session found out r

  replay_not_first :
      (digest : String) (w : World S) (out : CompleteOutput)
      → (replay_completion platform provider call identity upload_id digest w).0 ≡ ok out
      → out.first ≢ true
  unfolding replay_completion
  replay_not_first digest w out h first = ground (arith, h, first)

  settle-Delivers :
      (session : UploadSession) (w : World S) (out : CompleteOutput)
      → IsKeyed w.repository
      → (settle session w).0 ≡ ok out
      → out.first ≡ true
      → Delivered session w.storage out (settle session w).1.repository
  unfolding settle
  settle-Delivers session w out keyed h first = elim (Bool-cases (session.status == committed)) [
    | inl again ↦
        absurd (replay_not_first (parts_digest platform parts) w out (rw again at h) first)
    | inr fresh ↦ rw fresh (
        complete_session-Delivers platform provider call identity upload_id session
          (parts_digest platform parts) parts w out keyed (rw fresh at h) first)
  ]

  begin_and_settle-Delivers :
      (w : World S) (out : CompleteOutput)
      → IsKeyed w.repository
      → (begin_and_settle w).0 ≡ ok out
      → out.first ≡ true
      → (session : UploadSession) × ((begin w.repository).0 ≡ ok session)
        × Delivered session w.storage out (begin_and_settle w).1.repository
  unfolding begin_and_settle perform
  begin_and_settle-Delivers w out keyed h first =
      let (session, e, goes_on) = >>=-ok (on_repository begin) settle w out h in
      (
        session,
        e,
        rw goes_on (
            settle-Delivers session (on_repository begin w).1 out
              (perform-IsKeyed
                (Calls.begin identity upload_id (parts_digest platform parts) parts (call.now 0))
                w.repository keyed)
              (rw goes_on at h) first),
      )

  -- From sessions stored under their identifiers, a successful first completion through the service,
  -- over any storage provider, has begun with a session of the repository, and the storage, once it has
  -- joined the parts unless they had been before, has answered with an object of the session's expected
  -- size. Afterwards a download of the node finds a blob of that object's key, bucket and size, which is
  -- the node's size too, with the declared checksum where one was declared, and with the one that the
  -- storage reports where it reports one; and the session stored under the identifier is the answered
  -- one, committed with the node.
  pub complete_upload-Delivers :
      (w : World S) (out : CompleteOutput)
      → IsKeyed w.repository
      → (complete_upload platform provider call identity upload_id parts w).0 ≡ ok out
      → out.first ≡ true
      → (session : UploadSession) × ((begin w.repository).0 ≡ ok session)
        × Delivered session w.storage out
            (complete_upload platform provider call identity upload_id parts w).1.repository
  unfolding complete_upload settle begin_and_settle checked
  complete_upload-Delivers w out keyed h first =
      let (_, _, valid_then) = >>=-ok (require_id upload_id) (λ _. checked) w out h in
      let (_, _, checked_then) =
        >>=-ok (lift (validate_parts platform parts)) (λ _. begin_and_settle) w out
          (rw valid_then at h) in
      subst
        (λ (x : Result CompleteOutput × World S).
          (session : UploadSession) × ((begin w.repository).0 ≡ ok session)
          × Delivered session w.storage out x.1.repository)
        (sym (valid_then ∙ checked_then))
        (begin_and_settle-Delivers w out keyed (rw (valid_then, checked_then) at h) first)
