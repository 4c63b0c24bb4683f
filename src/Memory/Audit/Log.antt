-- ===== src/Memory/Audit/Log.antt =====
-- internal/memory/governance.go, `appendAuditLocked`: what an append does to the repository.
use asteria_drive.Prelude.{◌≡◌, arith, string_eq}
use asteria_drive.Result.{ok}
use asteria_drive.Types.Group.{AuditEvent}
use asteria_drive.Memory.State.{Repository}
use asteria_drive.Memory.Audit.{CallContext, append_audit, audited, keep}

-- Appending changes the log and its counter alone.
abbrev pub with_log : CallContext → AuditEvent → Repository → Repository
with_log ctx e r =
    let (_, r') = append_audit ctx e r in
    record r { audit = r'.audit; audit_sequence = r'.audit_sequence }

pub append_audit-with_log :
    (ctx : CallContext) (e : AuditEvent) (r : Repository)
    → (append_audit ctx e r).1 ≡ with_log ctx e r
unfolding append_audit
append_audit-with_log ctx e r = ground arith

-- A method that takes nothing back on an error leaves its state with the log of the append.
pub audited-keep :
    {A : Type 0} (ctx : CallContext) (e : AuditEvent) (a : A) (r : Repository)
    → (audited ctx e keep a r).1 ≡ with_log ctx e r
unfolding audited append_audit
audited-keep ctx e a r = ground arith

-- A method succeeds exactly when its append does, and then returns its result.
pub audited-ok :
    {A : Type 0} (ctx : CallContext) (e : AuditEvent) (undo : Repository → Repository) (a b : A)
    (r : Repository)
    → (audited ctx e undo a r).0 ≡ ok b
    → (b ≡ a) × ((append_audit ctx e r).0 ≡ ok tt) × ((audited ctx e undo a r).1 ≡ with_log ctx e r)
unfolding audited append_audit
audited-ok ctx e undo a b r h = ground arith
