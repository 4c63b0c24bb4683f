-- ===== src/Memory/Invitation/Accepting.antt =====
-- internal/memory/governance.go, `AcceptInvitation`: who may accept, and a repeated acceptance.
use asteria_drive.Prelude.{
  ◌≡◌, String, len, true, false, none, some, arith, refl, ℕ, ◌≢◌, ◌⊎◌, inl, inr, ◌==◌, nat_eq,
  string_eq, Option-cases,
}
use asteria_drive.Dict.{Dict, get, get_or, put}
use asteria_drive.Dict.Laws.{get-put_self}
use asteria_drive.Result.{ok}
use asteria_drive.Types.Access.{PrincipalRecord}
use asteria_drive.Types.Invitation.{
  TenantInvitation, no_invitation, AcceptInvitationCommand, accepted, invitation_status_eq,
  invitation_status_tag_iff,
}
use asteria_drive.Validation.{valid_id}
use asteria_drive.Memory.State.{Repository, principal_key, member_key}
use asteria_drive.Memory.Audit.{CallContext, append_audit}
use asteria_drive.Memory.Invitation.{
  accept_invitation, join, bad_identity_text, Acceptance, accepting_principal, accepted_invitation,
}

-- An acceptance under another issuer or subject than the invitation of its token names gives no member
-- and changes nothing.
pub accept_by_another :
    (ctx : CallContext) (c : AcceptInvitationCommand) (r : Repository) (id : String)
    (v : TenantInvitation) (m : PrincipalRecord)
    → get r.invitation_tokens c.token_hash ≡ some id
    → get r.invitations id ≡ some v
    → ((v.issuer == c.issuer) ≡ false) ⊎ ((v.subject == c.subject) ≡ false)
    → ((accept_invitation ctx c r).1 ≡ r) × ((accept_invitation ctx c r).0.result ≢ ok m)
unfolding accept_invitation get_or
accept_by_another ctx c r id v m gt gv other = ground arith

-- What a successful acceptance leaves behind: the invitation accepted by a principal, and that principal's
-- membership, which is the one returned.
abbrev IsAccepted : AcceptInvitationCommand → Acceptance → Repository → Type 0
IsAccepted c a r =
    (id : String) × (v : TenantInvitation) × (m : PrincipalRecord) × (a
      ≡ record { invitation = some v; result = ok m })
    × (get r.invitation_tokens c.token_hash ≡ some id)
    × (get_or no_invitation r.invitations id ≡ v)
    × (v.status ≡ accepted)
    × ((v.issuer == c.issuer) ≡ true)
    × ((v.subject == c.subject) ≡ true)
    × (get r.members (member_key v.tenant_id v.accepted_principal_id) ≡ some m)

join_writes :
    (ctx : CallContext) (c : AcceptInvitationCommand) (id : String) (v : TenantInvitation)
    (r : Repository) (m p : PrincipalRecord) (v' : TenantInvitation)
    → (join ctx c id v r).0.result ≡ ok m
    → accepting_principal v c.candidate_principal_id
        (get r.principals (principal_key v.issuer v.subject))
      ≡ p
    → accepted_invitation v p.identity.principal_id c.now ≡ v'
    → ((join ctx c id v r).0 ≡ record { invitation = some v'; result = ok m })
      × ((join ctx c id v r).1.invitation_tokens ≡ r.invitation_tokens)
      × ((join ctx c id v r).1.invitations ≡ put r.invitations id v')
      × ((join ctx c id v r).1.members
          ≡ put r.members (member_key v.tenant_id p.identity.principal_id) m)
unfolding join append_audit
join_writes ctx c id v r m p v' h ep ev = ground arith

get_or-put_self :
    (m : Dict String TenantInvitation) (k : String) (v : TenantInvitation)
    → get_or no_invitation (put m k v) k ≡ v
unfolding get_or
get_or-put_self m k v = ground (arith, get-put_self m k v)

join_accepts :
    (ctx : CallContext) (c : AcceptInvitationCommand) (id : String) (v : TenantInvitation)
    (r : Repository) (m : PrincipalRecord)
    → (join ctx c id v r).0.result ≡ ok m
    → get r.invitation_tokens c.token_hash ≡ some id
    → (v.issuer == c.issuer) ≡ true
    → (v.subject == c.subject) ≡ true
    → IsAccepted c (join ctx c id v r).0 (join ctx c id v r).1
join_accepts ctx c id v r m h gt ei es =
    let p =
      accepting_principal v c.candidate_principal_id
        (get r.principals (principal_key v.issuer v.subject)) in
    let v' = accepted_invitation v p.identity.principal_id c.now in
    let (e, et, ei', em) = join_writes ctx c id v r m p v' h refl refl in
    (
      id,
      v',
      m,
      e,
      rw et gt,
      rw ei' (get_or-put_self r.invitations id v'),
      refl,
      ei,
      es,
      rw em (get-put_self r.members (member_key v.tenant_id p.identity.principal_id) m),
    )

accepted_again :
    (ctx : CallContext) (c : AcceptInvitationCommand) (a : Acceptance) (r : Repository)
    → IsAccepted c a r
    → len c.token_hash ≡ 64
    → valid_id c.candidate_principal_id ≡ true
    → bad_identity_text c.issuer ≡ false
    → bad_identity_text c.subject ≡ false
    → accept_invitation ctx c r ≡ (a, r)
unfolding accept_invitation get_or
accepted_again ctx c a r (id, v, m, q, gt, gv, st, ei, es, gm) hl hv hi hs = ground arith

-- The tests that come before the token is looked up.
abbrev IsWellFormed : AcceptInvitationCommand → Type 0
IsWellFormed c =
    (len c.token_hash ≡ 64)
    × (valid_id c.candidate_principal_id ≡ true)
    × (bad_identity_text c.issuer ≡ false)
    × (bad_identity_text c.subject ≡ false)

accept_cases :
    (ctx : CallContext) (c : AcceptInvitationCommand) (r : Repository) (m : PrincipalRecord)
    (id : String) (v : TenantInvitation)
    → (accept_invitation ctx c r).0.result ≡ ok m
    → get r.invitation_tokens c.token_hash ≡ some id
    → get_or no_invitation r.invitations id ≡ v
    → IsWellFormed c
      × ((v.issuer == c.issuer) ≡ true)
      × ((v.subject == c.subject) ≡ true)
      × (((v.status ≡ accepted)
            × (get r.members (member_key v.tenant_id v.accepted_principal_id) ≡ some m)
            × (accept_invitation ctx c r ≡ (record { invitation = some v; result = ok m }, r)))
          ⊎ (accept_invitation ctx c r ≡ join ctx c id v r))
unfolding accept_invitation
accept_cases ctx c r m id v h gt gv = ground (arith, invitation_status_tag_iff v.status accepted)

no_token :
    (ctx : CallContext) (c : AcceptInvitationCommand) (r : Repository) (m : PrincipalRecord)
    → (accept_invitation ctx c r).0.result ≡ ok m
    → get r.invitation_tokens c.token_hash ≡ none
    → ⊥
unfolding accept_invitation
no_token ctx c r m h miss = ground arith

accept-IsAccepted :
    (ctx : CallContext) (c : AcceptInvitationCommand) (r : Repository) (m : PrincipalRecord)
    → (accept_invitation ctx c r).0.result ≡ ok m
    → IsWellFormed c × IsAccepted c (accept_invitation ctx c r).0 (accept_invitation ctx c r).1
accept-IsAccepted ctx c r m h = elim (Option-cases (get r.invitation_tokens c.token_hash)) [
  | inl miss ↦ absurd (no_token ctx c r m h miss)
  | inr (id, gt) ↦
      let v = get_or no_invitation r.invitations id in
      let (ok_form, ei, es, which) = accept_cases ctx c r m id v h gt refl in
      (ok_form, go id v gt refl ei es which)
]
  where
    go :
        (id : String) (v : TenantInvitation)
        → get r.invitation_tokens c.token_hash ≡ some id
        → get_or no_invitation r.invitations id ≡ v
        → (v.issuer == c.issuer) ≡ true
        → (v.subject == c.subject) ≡ true
        → ((v.status ≡ accepted)
            × (get r.members (member_key v.tenant_id v.accepted_principal_id) ≡ some m)
            × (accept_invitation ctx c r ≡ (record { invitation = some v; result = ok m }, r)))
          ⊎ (accept_invitation ctx c r ≡ join ctx c id v r)
        → IsAccepted c (accept_invitation ctx c r).0 (accept_invitation ctx c r).1
    go id v gt gv ei es (inl (st, gm, e)) = rw e (id, v, m, refl, gt, gv, st, ei, es, gm)
    go id v gt gv ei es (inr e) = rw e (join_accepts ctx c id v r m (ground arith) gt ei es)

-- An acceptance that succeeded is answered again with the same invitation and member, at any time and
-- for any valid candidate identifier, and changes nothing more.
pub accept_replay :
    (ctx ctx' : CallContext) (c : AcceptInvitationCommand) (r : Repository) (m : PrincipalRecord)
    (candidate : String) (now : ℕ)
    → (accept_invitation ctx c r).0.result ≡ ok m
    → valid_id candidate ≡ true
    → accept_invitation ctx'
        (record c { candidate_principal_id = candidate; now = now })
        (accept_invitation ctx c r).1
      ≡ accept_invitation ctx c r
accept_replay ctx ctx' c r m candidate now h valid =
    let ((hl, _, hi, hs), done) = accept-IsAccepted ctx c r m h in
    let c' : AcceptInvitationCommand = record c { candidate_principal_id = candidate; now = now } in
    accepted_again ctx' c' (accept_invitation ctx c r).0 (accept_invitation ctx c r).1 done hl valid
      hi hs
