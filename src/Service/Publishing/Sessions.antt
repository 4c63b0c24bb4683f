-- ===== src/Service/Publishing/Sessions.antt =====
-- internal/drive/service.go: what the completion of a session has published.
use asteria_drive.Prelude.{
  String, true, false, List, ◌≡◌, ◌≢◌, inl, inr, arith, Bool-cases, ◌==◌, sym, if◌then◌else◌,
  string_eq,
}
use asteria_drive.Result.{DriveError, Result, ok, err}
use asteria_drive.Types.Access.{Identity}
use asteria_drive.Types.Upload.{
  UploadSession, CompletedPart, object_completed, upload_status_eq, upload_failure_storage_rejected,
}
use asteria_drive.Types.Storage.{ObjectInfo, StorageProvider}
use asteria_drive.Platform.{Platform}
use asteria_drive.Memory.Upload.Calls.{IsKeyed, perform, perform-IsKeyed, mark_object}
use asteria_drive.Service.{Call, World, Action, ◌>>=◌, map_storage_error}
use asteria_drive.Service.Steps.{Result-cases, >>=-ok, >>-raise_fails}
use asteria_drive.Service.Completion.{
  CompleteOutput, join_parts, unseen_object, accept_object, reject_object, fail_completion,
}
use asteria_drive.Service.Completion.Accepted.{IsDeclared, accept_object-IsDeclared}
use asteria_drive.Service.Publishing.{publish_object, find_object, mark_completed, complete_session}
use asteria_drive.Service.Publishing.Files.{Delivers, publish_object-IsPublished}

module _ (platform : Platform) {S : Type 0} (provider : StorageProvider S) (call : Call)
    (identity : Identity) (upload_id : String) (session : UploadSession) (digest : String)
    (parts : List CompletedPart) where
  unseen_object_fails :
      (joined : Result ObjectInfo) (e : DriveError) (w : World S) (object : ObjectInfo)
      → (unseen_object platform provider call identity session digest joined e w).0 ≢ ok object
  unfolding unseen_object reject_object map_storage_error
  unseen_object_fails (ok _) e w object h = ground (arith, h)
  unseen_object_fails (err f) e w object h = ground (
    arith,
    h,
    >>-raise_fails
        (fail_completion platform provider call identity session digest
          upload_failure_storage_rejected false)
        (map_storage_error f) w object,
  )

  -- The storage that is asked for the object: the parts are joined unless they have been before.
  abbrev pub joined_storage : S → S
  joined_storage s =
      if session.status == object_completed
      then s
      else (provider.complete_multipart session.object_key session.storage_upload_id parts s).1

  -- The search for the object that succeeds asks the storage only, and has its answer.
  find_object-Sees :
      (w : World S) (found : ObjectInfo)
      → (find_object platform provider call identity session digest parts w).0 ≡ ok found
      → ((find_object platform provider call identity session digest parts w).1.repository
          ≡ w.repository)
        × ((provider.stat_object session.object_key (joined_storage w.storage)).0 ≡ ok found)
  unfolding find_object join_parts
  find_object-Sees w found h = elim (Bool-cases (session.status == object_completed)) [
    | inl before ↦
        let seen = provider.stat_object session.object_key w.storage in
        elim (Result-cases seen.0) [
          | inl (object, e) ↦ ground (arith, before, e, h)
          | inr (e, missing) ↦ ground (arith, before, missing, h)
        ]
    | inr now ↦
        let joined =
          provider.complete_multipart session.object_key session.storage_upload_id parts
            w.storage in
        let seen = provider.stat_object session.object_key joined.1 in
        elim (Result-cases seen.0) [
          | inl (object, e) ↦ ground (arith, now, e, h)
          | inr (e, missing) ↦ ground (
            arith,
            now,
            missing,
            h,
            unseen_object_fails joined.0 e (record w { storage = seen.1 }) found,
          )
        ]
  ]

  mark_completed-IsKeyed :
      (w : World S)
      → IsKeyed w.repository
      → IsKeyed (mark_completed platform provider call identity upload_id session w).1.repository
  unfolding mark_completed perform
  mark_completed-IsKeyed w keyed = elim (Bool-cases (session.status == object_completed)) [
    | inl here ↦ rw here keyed
    | inr there ↦
        rw there (perform-IsKeyed (mark_object identity upload_id (call.now 2)) w.repository keyed)
  ]

  -- What is left to do with an object that the storage has, and with one that is accepted.
  mark_and_publish : ObjectInfo → Action S CompleteOutput
  mark_and_publish object =
      mark_completed platform provider call identity upload_id session >>= λ s.
      publish_object provider call identity upload_id s digest parts object

  rest_of : ObjectInfo → Action S CompleteOutput
  unfolding mark_and_publish
  rest_of found =
      accept_object platform provider call identity session digest found >>= mark_and_publish

  deliver :
      (found object : ObjectInfo) (w : World S) (out : CompleteOutput)
      → IsKeyed w.repository
      → IsDeclared session.declared_checksum found object × (object.size ≡ session.expected_size)
      → (mark_and_publish object w).0 ≡ ok out
      → out.first ≡ true
      → Delivers identity upload_id session found out (mark_and_publish object w).1.repository
  unfolding mark_and_publish
  deliver found object w out keyed (declared, size) h first =
      let (s, e, goes_on) =
        >>=-ok (mark_completed platform provider call identity upload_id session)
          (λ s. publish_object provider call identity upload_id s digest parts object) w out h in
      record {
        object = object;
        size_declared = cc (sym declared.size_kept, size);
        checksum_declared = declared;
        published = rw goes_on (
            publish_object-IsPublished provider call identity upload_id s digest parts object
              (mark_completed platform provider call identity upload_id session w).1 out
              (mark_completed-IsKeyed w keyed) (rw goes_on at h) first);
      }

  after_find :
      (found : ObjectInfo) (w : World S) (out : CompleteOutput)
      → IsKeyed w.repository
      → (rest_of found w).0 ≡ ok out
      → out.first ≡ true
      → Delivers identity upload_id session found out (rest_of found w).1.repository
  unfolding rest_of mark_and_publish
  after_find found w out keyed h first =
      let (object, e, goes_on) =
        >>=-ok (accept_object platform provider call identity session digest found) mark_and_publish
          w out h in
      let (declared, size, still) =
        accept_object-IsDeclared platform provider call identity session digest found object w e in
      rw (goes_on, still)
        (deliver found object w out keyed (declared, size) (rw (goes_on, still) at h) first)

  pub complete_session-Delivers :
      (w : World S) (out : CompleteOutput)
      → IsKeyed w.repository
      → (complete_session platform provider call identity upload_id session digest parts w).0
        ≡ ok out
      → out.first ≡ true
      → (found : ObjectInfo) × ((provider.stat_object session.object_key
            (joined_storage w.storage)).0
          ≡ ok found)
        × Delivers identity upload_id session found out
            (complete_session platform provider call identity upload_id session digest parts
              w).1.repository
  unfolding complete_session rest_of mark_and_publish
  complete_session-Delivers w out keyed h first =
      let (found, e, goes_on) =
        >>=-ok (find_object platform provider call identity session digest parts) rest_of w out h in
      let (still, seen) = find_object-Sees w found e in
      (
        found,
        seen,
        rw goes_on (
            after_find found (find_object platform provider call identity session digest parts w).1
              out (rw still keyed) (rw goes_on at h) first),
      )
