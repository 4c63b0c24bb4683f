-- ===== src/Memory/Upload/History.antt =====
-- internal/memory/repository.go: an upload session over a sequence of calls.
use asteria_drive.Prelude.{
  ◌≡◌, ◌≢◌, String, true, some, List, [], ◌∷◌, arith, ◌⊎◌, refl, inl, inr, ◌∙◌, string_eq,
}
use asteria_drive.Dict.{get}
use asteria_drive.Types.Upload.{UploadSession, UploadStatus, is_terminal}
use asteria_drive.Memory.State.{Repository, new_repository}
use asteria_drive.Memory.Upload.Machine.{
  ◌⟶◌, IsOpen, created_open, uploading_open, begin_upload, freeze, assemble, reject_object, publish,
  reject_commit, abort, expire, give_up,
}
use asteria_drive.Memory.Upload.Calls.{
  UploadCall, perform, perform_all, IsKeyed, Follows, perform-Follows, perform-IsKeyed,
}

-- From a repository whose sessions stand under their identifiers, so do those after any calls.
pub perform_all-IsKeyed :
    (cs : List UploadCall) (r : Repository) → IsKeyed r → IsKeyed (perform_all cs r)
unfolding perform_all
perform_all-IsKeyed [] r k = k
perform_all-IsKeyed (c ∷ cs) r k = perform_all-IsKeyed cs (perform c r) (perform-IsKeyed c r k)

pub IsKeyed-new_repository : IsKeyed new_repository
unfolding get
IsKeyed-new_repository = record { at_key = λ id s g. cc }

open_not_terminal : {s : UploadStatus} → IsOpen s → is_terminal s ≡ true → ⊥
unfolding is_terminal
open_not_terminal created_open h = cc
open_not_terminal uploading_open h = cc

-- No edge leaves a terminal state.
terminal_stuck : {s t : UploadStatus} → s ⟶ t → is_terminal s ≡ true → ⊥
unfolding is_terminal
terminal_stuck begin_upload h = cc
terminal_stuck (freeze o) h = open_not_terminal o h
terminal_stuck assemble h = cc
terminal_stuck reject_object h = cc
terminal_stuck publish h = cc
terminal_stuck reject_commit h = cc
terminal_stuck (abort o) h = open_not_terminal o h
terminal_stuck (expire o) h = open_not_terminal o h
terminal_stuck (give_up o) h = open_not_terminal o h

-- From sessions stored under their identifiers, a session that was committed, aborted, expired or
-- failed is not changed by any later sequence of the eight calls that UploadCall lists: creation,
-- marking, beginning, failing and finishing of the completion, abortion, commit, and the note of the
-- cleanup. The calls of the maintenance loop on leases are none of them.
pub terminal_absorbs :
    (cs : List UploadCall) (r : Repository)
    → IsKeyed r
    → (id : String) (s : UploadSession) → get r.uploads id ≡ some s
    → is_terminal s.status ≡ true
    → get (perform_all cs r).uploads id ≡ some s
unfolding perform_all
terminal_absorbs [] r k id s g t = g
terminal_absorbs (c ∷ cs) r k id s g t =
    terminal_absorbs cs (perform c r) (perform-IsKeyed c r k) id s
      (stays (perform-Follows c r k id s g)) t
  where
    stays : Follows s (perform c r) id → get (perform c r).uploads id ≡ some s
    stays (s', e, inl same) = ground arith
    stays (s', e, inr m) = absurd (terminal_stuck m.edge t)

-- From sessions stored under their identifiers, the completion digest of the first accepted completion
-- request stays through any sequence of the eight calls that UploadCall lists.
pub digest_frozen :
    (cs : List UploadCall) (r : Repository)
    → IsKeyed r
    → (id : String) (s : UploadSession) → get r.uploads id ≡ some s
    → s.completion_digest ≢ ""
    → (s' : UploadSession) × (get (perform_all cs r).uploads id ≡ some s')
      × (s'.completion_digest ≡ s.completion_digest)
unfolding perform_all
digest_frozen [] r k id s g d = (s, g, refl)
digest_frozen (c ∷ cs) r k id s g d =
    go (digest_frozen cs (perform c r) (perform-IsKeyed c r k) id) (perform-Follows c r k id s g)
  where
    Frozen : UploadSession → Type 0
    Frozen s1 =
        (s' : UploadSession) × (get (perform_all cs (perform c r)).uploads id ≡ some s')
        × (s'.completion_digest ≡ s1.completion_digest)

    kept :
        (s1 : UploadSession)
        → (s.completion_digest ≡ "") ⊎ (s1.completion_digest ≡ s.completion_digest)
        → s1.completion_digest ≡ s.completion_digest
    kept s1 (inl empty) = absurd (d empty)
    kept s1 (inr same) = same

    go :
        ((s1 : UploadSession)
          → get (perform c r).uploads id ≡ some s1
          → s1.completion_digest ≢ ""
          → Frozen s1)
        → Follows s (perform c r) id
        → Frozen s
    go rest (s1, e, inl same) = rest s (ground arith) d
    go rest (s1, e, inr m) =
        let same : s1.completion_digest ≡ s.completion_digest = kept s1 m.frozen in
        let (s', found, q) = rest s1 e (ground arith) in (s', found, q ∙ same)
