-- ===== src/Service/Publishing/Files.antt =====
-- internal/drive/service.go: the file that a published object becomes.
use asteria_drive.Prelude.{
  String, Bool, true, some, List, ◌≡◌, inl, inr, refl, ap, arith, Option-cases, string_eq,
}
use asteria_drive.Dict.{get}
use asteria_drive.Result.{ok}
use asteria_drive.Types.Access.{Identity}
use asteria_drive.Types.Node.{Blob}
use asteria_drive.Types.Upload.{
  UploadSession, CompletedPart, CompleteResult, CommitUploadCommand, committed, upload_status_eq,
}
use asteria_drive.Types.Storage.{ObjectInfo, StorageProvider}
use asteria_drive.Memory.State.{Repository, upload_for}
use asteria_drive.Memory.Upload.{commit_upload}
use asteria_drive.Memory.Upload.Parts.{download_blob}
use asteria_drive.Memory.Upload.Commit.{
  IsLinked, commit_published, commit_publishes, commit_then_download,
}
use asteria_drive.Memory.Upload.Calls.{IsKeyed}
use asteria_drive.Service.{Call, World}
use asteria_drive.Service.Steps.{Result-cases, >>-raise_fails}
use asteria_drive.Service.Completion.{CompleteOutput}
use asteria_drive.Service.Completion.Accepted.{IsDeclared}
use asteria_drive.Service.Publishing.{commit_command, undo_object, publish_object}

-- A file stands in the repository with the object's size, a download of it finds the object, and the session
-- that is stored under the identifier is committed with the file's node.
pub record IsPublished (identity : Identity) (upload_id : String) (object : ObjectInfo)
    (out : CompleteOutput) (r : Repository) : Type 0 where
  pub blob : Blob
  pub downloads : download_blob identity out.node.id r ≡ ok (out.node, blob)
  pub key_kept : blob.object_key ≡ object.object_key
  pub bucket_kept : blob.bucket ≡ object.bucket
  pub blob_size : blob.size ≡ object.size
  pub checksum_kept : blob.checksum ≡ object.checksum
  pub node_size : out.node.size ≡ object.size
  pub session_stored : get r.uploads upload_id ≡ some out.upload
  pub session_committed : out.upload.status ≡ committed
  pub session_node : out.upload.committed_node_id ≡ out.node.id

-- What the storage answered for a session is what the session declared, and it is what is published.
pub record Delivers (identity : Identity) (upload_id : String) (session : UploadSession)
    (found : ObjectInfo) (out : CompleteOutput) (r : Repository) : Type 0 where
  pub object : ObjectInfo
  pub size_declared : found.size ≡ session.expected_size
  pub checksum_declared : IsDeclared session.declared_checksum found object
  pub published : IsPublished identity upload_id object out r

-- The repository finds the session that it commits.
commit_finds :
    (call : Call) (c : CommitUploadCommand) (r : Repository) (res : CompleteResult × Bool)
    → (commit_upload call.context c r).0 ≡ ok res
    → (s : UploadSession) × (get r.uploads c.session_id ≡ some s)
unfolding commit_upload upload_for
commit_finds call c r res h = elim (Option-cases (get r.uploads c.session_id)) [
  | inl missing ↦ ground (arith, missing, h)
  | inr found ↦ found
]

module _ {S : Type 0} (provider : StorageProvider S) (call : Call) (identity : Identity)
    (upload_id : String) (session : UploadSession) (digest : String) (parts : List CompletedPart)
    (object : ObjectInfo) where
  abbrev command : String → String → String → CommitUploadCommand
  command blob_id node_id version_id =
      commit_command identity upload_id session digest object blob_id node_id version_id parts
        (call.now 3)

  command-IsLinked :
      (blob_id node_id version_id : String) → IsLinked (command blob_id node_id version_id)
  command-IsLinked blob_id node_id version_id = record {
    version_of_node = refl;
    blob_of_version = refl;
    node_tenant = refl;
    version_tenant = refl;
    blob_tenant = refl;
    node_is_file = refl;
    node_is_active = refl;
    node_not_trashed = refl;
    blob_is_available = refl;
  }

  commit-IsPublished :
      (blob_id node_id version_id : String) (r r' : Repository) (res : CompleteResult)
      (out : CompleteOutput)
      → IsKeyed r
      → (commit_upload call.context (command blob_id node_id version_id) r).0 ≡ ok (res, true)
      → out.upload ≡ res.upload
      → out.node ≡ res.node
      → r' ≡ (commit_upload call.context (command blob_id node_id version_id) r).1
      → IsPublished identity upload_id object out r'
  commit-IsPublished blob_id node_id version_id r r' res out keyed h same_upload same_node left =
      let c : CommitUploadCommand = command blob_id node_id version_id in
      let (s, g) = commit_finds call c r (res, true) h in
      let k = keyed.at_key upload_id s g in
      let (_, _, _, _, _, _, _, there, done, with_node) =
        commit_publishes call.context c r s g k res h in
      let (_, is_result, _, _, _, _, _) = commit_published call.context c r s g k res h in
      let node_is : out.node ≡ c.node =
        cc (same_node, ap (λ (x : CompleteResult). x.node) is_result) in
      record {
        blob = c.blob;
        downloads =
            rw (left, node_is)
              (commit_then_download call.context c r s g k res
                (command-IsLinked blob_id node_id version_id) h);
        key_kept = refl;
        bucket_kept = refl;
        blob_size = refl;
        checksum_kept = refl;
        node_size = rw node_is refl;
        session_stored = rw (left, same_upload) there;
        session_committed = rw same_upload done;
        session_node = rw (same_upload, node_is) with_node;
      }

  -- What a commit has answered, in the output of the call.
  abbrev output : CompleteResult × Bool → CompleteOutput
  output (res, first) = record { upload = res.upload; node = res.node; first = first }

  -- The identifiers that have been drawn, and the commit with them.
  record Committed (w w' : World S) (out : CompleteOutput) : Type 0 where
    blob_id : String
    node_id : String
    version_id : String
    res : CompleteResult × Bool
    answer :
        (commit_upload call.context (command blob_id node_id version_id) w.repository).0 ≡ ok res
    out_is : out ≡ output res
    left :
        w'.repository
        ≡ (commit_upload call.context (command blob_id node_id version_id) w.repository).1

  drawn_commit :
      (blob_id node_id version_id : String) (w : World S) (out : CompleteOutput)
      → call.new_id 0 ≡ some blob_id
      → call.new_id 1 ≡ some node_id
      → call.new_id 2 ≡ some version_id
      → (publish_object provider call identity upload_id session digest parts object w).0 ≡ ok out
      → Committed w
          (publish_object provider call identity upload_id session digest parts object w).1
          out
  unfolding publish_object
  drawn_commit blob_id node_id version_id w out a b c h =
      elim (Result-cases
        (commit_upload call.context (command blob_id node_id version_id) w.repository).0) [
          | inl (res, e) ↦ record {
            blob_id = blob_id;
            node_id = node_id;
            version_id = version_id;
            res = res;
            answer = e;
            out_is = ground (arith, a, b, c, e, h);
            left = ground (arith, a, b, c, e, h);
          }
          | inr (e, failed) ↦ ground (
            arith,
            a,
            b,
            c,
            failed,
            h,
            >>-raise_fails (undo_object provider identity session e) e
                (record w {
                  repository =
                      (commit_upload call.context (command blob_id node_id version_id)
                        w.repository).1;
                })
                out,
          )
        ]

  publish_object-Committed :
      (w : World S) (out : CompleteOutput)
      → (publish_object provider call identity upload_id session digest parts object w).0 ≡ ok out
      → Committed w
          (publish_object provider call identity upload_id session digest parts object w).1
          out
  publish_object-Committed w out h = elim (Option-cases (call.new_id 0)) [
    | inl a ↦ unfold publish_object in ground (arith, a, h)
    | inr (blob_id, a) ↦ elim (Option-cases (call.new_id 1)) [
      | inl b ↦ unfold publish_object in ground (arith, a, b, h)
      | inr (node_id, b) ↦ elim (Option-cases (call.new_id 2)) [
        | inl c ↦ unfold publish_object in ground (arith, a, b, c, h)
        | inr (version_id, c) ↦ drawn_commit blob_id node_id version_id w out a b c h
      ]
    ]
  ]

  Committed-IsPublished :
      (w w' : World S) (out : CompleteOutput)
      → IsKeyed w.repository
      → Committed w w' out
      → out.first ≡ true
      → IsPublished identity upload_id object out w'.repository
  Committed-IsPublished w w' out keyed d first =
      let now_first : d.res.1 ≡ true = cc (ap (λ (o : CompleteOutput). o.first) d.out_is, first) in
      commit-IsPublished d.blob_id d.node_id d.version_id w.repository w'.repository d.res.0 out
        keyed (rw (← now_first) d.answer) (ap (λ (o : CompleteOutput). o.upload) d.out_is)
        (ap (λ (o : CompleteOutput). o.node) d.out_is) d.left

  -- A first commit through the service
  pub publish_object-IsPublished :
      (w : World S) (out : CompleteOutput)
      → IsKeyed w.repository
      → (publish_object provider call identity upload_id session digest parts object w).0 ≡ ok out
      → out.first ≡ true
      → IsPublished identity upload_id object out
          (publish_object provider call identity upload_id session digest parts object
            w).1.repository
  publish_object-IsPublished w out keyed h first =
      Committed-IsPublished w
        (publish_object provider call identity upload_id session digest parts object w).1 out keyed
        (publish_object-Committed w out h) first
