-- ===== src/Memory/Audit/Reads.antt =====
-- internal/memory/governance.go, `ListAudit`: the events of a page.
use asteria_drive.Prelude.{
  ℕ, suc, ◌+◌, ◌≤◌, ◌<◌, ◌≡◌, true, List, [], ◌∷◌, arith, string_eq, Bool-cases, inl, inr, length,
  ◌&&◌,
}
use asteria_drive.Prelude.Int.{pos, leb_ℤ, ltb_ℤ}
use asteria_drive.Types.Group.{AuditEvent, AuditFilter}
use asteria_drive.Memory.State.{Repository}
use asteria_drive.Memory.Audit.{matches, collect, list_audit}

-- Every event of the list passes the filter.
pub data AllMatch (f : AuditFilter) : List AuditEvent → Type 0 where
  nil : AllMatch f []
  cons :
      (e : AuditEvent) (es : List AuditEvent)
      → matches f e ≡ true
      → AllMatch f es
      → AllMatch f (e ∷ es)

collect-AllMatch :
    (f : AuditFilter) (taken : ℕ) (es : List AuditEvent) → AllMatch f (collect f taken es)
unfolding collect
collect-AllMatch f taken [] = nil
collect-AllMatch f taken (e ∷ es) = elim (Bool-cases (matches f e)) [
  | inr not_e ↦ rw not_e (collect-AllMatch f taken es)
  | inl ok_e ↦ elim (Bool-cases (ltb_ℤ (pos 0) f.limit && leb_ℤ f.limit (pos (suc taken)))) [
    | inl stop ↦ rw (ok_e, stop) (cons e [] ok_e nil)
    | inr go ↦ rw (ok_e, go) (cons e _ ok_e (collect-AllMatch f (suc taken) es))
  ]
]

collect-length :
    (f : AuditFilter) (limit taken : ℕ) (es : List AuditEvent)
    → f.limit ≡ pos limit
    → taken < limit
    → taken + length (collect f taken es) ≤ limit
unfolding collect ltb_ℤ leb_ℤ
collect-length f limit taken [] h lt = ground arith
collect-length f limit taken (e ∷ es) h lt =
    ground (arith, collect-length f limit taken es h, collect-length f limit (suc taken) es h)

-- With a positive limit, a page of the audit log holds only events that pass the filter, and at most
-- as many as the limit.
pub list_audit-bounded :
    (r : Repository) (f : AuditFilter) (limit : ℕ)
    → f.limit ≡ pos limit
    → 0 < limit
    → AllMatch f (list_audit r f) × (length (list_audit r f) ≤ limit)
unfolding list_audit
list_audit-bounded r f limit h lt =
    (collect-AllMatch f 0 r.audit, omega (arith, collect-length f limit 0 r.audit h lt))
