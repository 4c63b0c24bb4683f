-- ===== src/Memory/Upload/Calls.antt =====
-- internal/memory/repository.go: the methods on upload sessions, as calls, and sequences of them.
use asteria_drive.Prelude.{
  ℕ, ◌≡◌, String, none, some, List, [], ◌∷◌, arith, ◌⊎◌, refl, inl, inr, ◌==◌, str_beq_iff,
  string_eq, Bool-cases, Option-cases,
}
use asteria_drive.Dict.{get, has}
use asteria_drive.Dict.Laws.{get-put}
use asteria_drive.Types.Access.{Identity}
use asteria_drive.Types.Upload.{
  UploadSession, CompletedPart, CreateUploadCommand, CommitUploadCommand, UploadStatus, failed,
}
use asteria_drive.Memory.State.{Repository, upload_for}
use asteria_drive.Memory.Audit.{CallContext}
use asteria_drive.Memory.Idempotency.{complete_idempotency}
use asteria_drive.Memory.Upload.{
  create_upload, mark_uploading, begin_complete, fail_upload_completion, mark_object_completed,
  abort_upload, commit_upload, mark_upload_cleanup_complete, moved, committed_session,
}
use asteria_drive.Memory.Upload.Machine.{
  Moves, Writes, mark-Writes, begin-Writes, fail-Writes, object-Writes, abort-Writes, commit-Writes,
}

-- A call of a method on upload sessions.
pub data UploadCall : Type 0 where
  create : CreateUploadCommand → UploadCall
  mark : Identity → String → ℕ → UploadCall
  begin : Identity → String → String → List CompletedPart → ℕ → UploadCall
  fail_completion : Identity → String → String → String → ℕ → UploadCall
  mark_object : Identity → String → ℕ → UploadCall
  abort_to : Identity → String → UploadStatus → ℕ → UploadCall
  commit : CallContext → CommitUploadCommand → UploadCall
  cleaned : Identity → String → UploadCall

-- The repository that the call leaves, whether it succeeds or not.
unfoldable pub perform : UploadCall → Repository → Repository
perform (create c) r = (create_upload c r).1
perform (mark i id now) r = (mark_uploading i id now r).1
perform (begin i id digest parts now) r = (begin_complete i id digest parts now r).1
perform (fail_completion i id digest code now) r = (fail_upload_completion i id digest code now r).1
perform (mark_object i id now) r = (mark_object_completed i id now r).1
perform (abort_to i id target now) r = (abort_upload i id target now r).1
perform (commit ctx c) r = (commit_upload ctx c r).1
perform (cleaned i id) r = (mark_upload_cleanup_complete i id r).1

unfoldable pub perform_all : List UploadCall → Repository → Repository
unfolding perform
perform_all [] r = r
perform_all (c ∷ cs) r = perform_all cs (perform c r)

-- Every session stands under its own identifier.
pub record IsKeyed (r : Repository) : Type 0 where
  pub at_key : (id : String) (s : UploadSession) → get r.uploads id ≡ some s → s.id ≡ id

-- A session is left as it is, or it makes one step.
abbrev pub Follows : UploadSession → Repository → String → Type 0
Follows s r' j = (s' : UploadSession) × (get r'.uploads j ≡ some s') × ((s' ≡ s) ⊎ Moves s s')

-- A change of the repository that writes at most one step of the session under one identifier.
record WritesAt (r r' : Repository) : Type 0 where
  id : String
  missing : get r.uploads id ≡ none → r'.uploads ≡ r.uploads
  found :
      (s0 : UploadSession)
      → get r.uploads id ≡ some s0
      → (s1 : UploadSession) × Writes r r' id s0 s1

module _ {r r' : Repository} (w : WritesAt r r') where
  open w use {id, missing, found}

  WritesAt-Follows : (j : String) (s : UploadSession) → get r.uploads j ≡ some s → Follows s r' j
  WritesAt-Follows j s g = elim (Option-cases (get r.uploads id)) [
    | inl miss ↦ (s, rw (missing miss) g, inl refl)
    | inr (s0, e) ↦ written s0 e (found s0 e)
  ]
    where
      written :
          (s0 : UploadSession)
          → get r.uploads id ≡ some s0
          → ((s1 : UploadSession) × Writes r r' id s0 s1)
          → (s' : UploadSession) × (get r'.uploads j ≡ some s') × ((s' ≡ s) ⊎ Moves s s')
      written s0 e (s1, inl same) = (s, rw same g, inl refl)
      written s0 e (s1, inr (put_it, m)) = elim (Bool-cases (id == j)) [
        | inl here ↦
            let p : id ≡ j = (str_beq_iff id j).0 here in
            (
              s1,
              ground (arith, get-put r.uploads id j s1),
              inr (let q : s0 ≡ s = ground arith in rw (← q) m),
            )
        | inr there ↦ (s, ground (arith, get-put r.uploads id j s1), inl refl)
      ]

  WritesAt-IsKeyed : IsKeyed r → IsKeyed r'
  WritesAt-IsKeyed k = elim (Option-cases (get r.uploads id)) [
    | inl miss ↦ record { at_key = λ j s g. k.at_key j s (rw (← missing miss) g) }
    | inr (s0, e) ↦ record { at_key = λ j s g. written s0 e (found s0 e) j s g }
  ]
    where
      written :
          (s0 : UploadSession)
          → get r.uploads id ≡ some s0
          → ((s1 : UploadSession) × Writes r r' id s0 s1)
          → (j : String) (s : UploadSession) → get r'.uploads j ≡ some s
          → s.id ≡ j
      written s0 e (s1, inl same) j s g = k.at_key j s (rw (← same) g)
      written s0 e (s1, inr (put_it, m)) j s g = ground (
        arith,
        get-put r.uploads id j s1,
        k.at_key id s0,
        k.at_key j s,
        m.same_id,
        str_beq_iff id j,
      )

create-Follows :
    (c : CreateUploadCommand) (r : Repository) (j : String) (s : UploadSession)
    → get r.uploads j ≡ some s
    → Follows s (create_upload c r).1 j
unfolding create_upload has complete_idempotency
create-Follows c r j s g = (s, grind (arith, get-put, str_beq_iff), inl refl)

create-IsKeyed :
    (c : CreateUploadCommand) (r : Repository) → IsKeyed r → IsKeyed (create_upload c r).1
unfolding create_upload complete_idempotency
create-IsKeyed c r k = record {
  at_key = λ j s g.
      grind (
        arith,
        get-put r.uploads c.session.id j c.session,
        k.at_key j s,
        str_beq_iff c.session.id j,
      );
}

-- Every call but a creation writes at most one step of one session.
perform-cases :
    (call : UploadCall) (r : Repository)
    → IsKeyed r
    → ((c : CreateUploadCommand) × (call ≡ create c)) ⊎ WritesAt r (perform call r)
unfolding perform mark_uploading begin_complete fail_upload_completion mark_object_completed
    abort_upload commit_upload mark_upload_cleanup_complete upload_for
perform-cases (create c) r k = inl (c, refl)
perform-cases (mark i id now) r k = inr (record {
  id = id;
  missing = λ e. ground arith;
  found = λ s e. (_, mark-Writes r i id now s e);
})
perform-cases (begin i id d parts now) r k = inr (record {
  id = id;
  missing = λ e. ground arith;
  found = λ s e. (_, begin-Writes r i id now s e d parts);
})
perform-cases (fail_completion i id d code now) r k = inr (record {
  id = id;
  missing = λ e. ground arith;
  found = λ s e. (_, fail-Writes r i id now s e d code);
})
perform-cases (mark_object i id now) r k = inr (record {
  id = id;
  missing = λ e. ground arith;
  found = λ s e. (_, object-Writes r i id now s e);
})
perform-cases (abort_to i id target now) r k = inr (record {
  id = id;
  missing = λ e. ground arith;
  found = λ s e. (_, abort-Writes r i id now s e target);
})
perform-cases (commit ctx c) r k = inr (record {
  id = c.session_id;
  missing = λ e. ground arith;
  found = λ s e. commit_found s (commit-Writes ctx c r s e (k.at_key c.session_id s e));
})
  where
    commit_found :
        (s : UploadSession)
        → (Writes r (commit_upload ctx c r).1 c.session_id s (committed_session c s)
            ⊎ ((code : String) × Writes r
                  (commit_upload ctx c r).1
                  c.session_id
                  s
                  (record (moved failed c.now s) { failure_code = code })))
        → (s1 : UploadSession) × Writes r (commit_upload ctx c r).1 c.session_id s s1
    commit_found s (inl w) = (committed_session c s, w)
    commit_found s (inr (code, w)) = (record (moved failed c.now s) { failure_code = code }, w)
perform-cases (cleaned i id) r k =
    inr (record { id = id; missing = λ e. ground arith; found = λ s e. (s, inl (ground arith)) })

-- From sessions stored under their identifiers, each of the eight calls on upload sessions, whether it
-- succeeds or not, leaves every session as it is or moves it along one edge of the state diagram with
-- one more revision, the same identifier and a completion digest that stays once it is set.
pub perform-Follows :
    (call : UploadCall) (r : Repository)
    → IsKeyed r
    → (j : String) (s : UploadSession) → get r.uploads j ≡ some s
    → Follows s (perform call r) j
perform-Follows call r k j s g = elim (perform-cases call r k) [
  | inl (c, e) ↦ rw e (unfold perform in create-Follows c r j s g)
  | inr w ↦ WritesAt-Follows w j s g
]

pub perform-IsKeyed : (call : UploadCall) (r : Repository) → IsKeyed r → IsKeyed (perform call r)
perform-IsKeyed call r k = elim (perform-cases call r k) [
  | inl (c, e) ↦ rw e (unfold perform in create-IsKeyed c r k)
  | inr w ↦ WritesAt-IsKeyed w k
]
