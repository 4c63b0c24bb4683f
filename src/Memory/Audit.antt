-- ===== src/Memory/Audit.antt =====
-- internal/memory/governance.go: the audit log. A fresh identifier and the request's identifier come from
-- outside: `CallContext` has the request's identifier (`RequestIDFromContext`) and what `NewID` returns
-- if this call asks for one, `none` when the random source fails.
pub mod Log
pub mod Reads
use asteria_drive.Prelude.{
  ℕ, String, len, Bool, true, false, Option, none, some, List, [], ◌∷◌, ◌++◌, ◌&&◌, ◌||◌, ltb,
  length, leb, not, ◌==◌, string_eq, nat_eq, any, filter, if◌then◌else◌,
}
use asteria_drive.Prelude.Int.{ℤ, pos, inc64, ltb_ℤ, leb_ℤ}
use asteria_drive.Dict.{Dict, any_entry}
use asteria_drive.Text.{json_map_size}
use asteria_drive.Result.{Result, ok, err, ErrorCode}
use asteria_drive.Types.Group.{AuditEvent, AuditFilter}
use asteria_drive.Memory.State.{Repository, Outcome, accept, reject}

pub record CallContext : Type 0 where
  pub request_id : String
  pub new_id : Option String

abbrev pub bad_metadata_member : String → String → Bool
bad_metadata_member key value = key == "" || ltb 128 (len key) || ltb 2048 (len value)

-- `boundedAuditMetadata`: whether it returns its map, and not an error.
unfoldable pub metadata_is_bounded : Dict String String → Bool
metadata_is_bounded m = not (any_entry bad_metadata_member m) && leb (json_map_size m) 4096

-- An event as the methods fill it in.
abbrev pub audit_event :
    String → String → String → String → String → ℕ → Dict String String → AuditEvent
audit_event tenant_id actor_principal_id action target_type target_id now metadata = record {
  sequence = pos 0;
  id = "";
  tenant_id = tenant_id;
  actor_principal_id = actor_principal_id;
  action = action;
  target_type = target_type;
  target_id = target_id;
  request_id = "";
  metadata = metadata;
  occurred_at = now;
}

abbrev or_default : String → String → String
or_default s default = if s == "" then default else s

-- The event's identifier, drawn when it has none.
event_id : CallContext → AuditEvent → Option String
event_id ctx e = if e.id == "" then ctx.new_id else some e.id

abbrev stored : CallContext → AuditEvent → String → ℤ → AuditEvent
stored ctx e id sequence = record e {
  id = id;
  request_id = or_default e.request_id ctx.request_id;
  sequence = sequence;
}

-- `appendAuditLocked`
unfoldable pub append_audit : CallContext → AuditEvent → Repository → Outcome (Unit {0})
unfolding event_id
append_audit ctx e r =
    if metadata_is_bounded e.metadata
    then elim (event_id ctx e) [
      | none ↦ reject ErrorCode.internal r
      | some id ↦
          let sequence = inc64 r.audit_sequence in
          accept tt (record r {
            audit_sequence = sequence;
            audit = r.audit ++ stored ctx e id sequence ∷ [];
          })
    ]
    else reject ErrorCode.invalid_request r

-- The tail of a method: append the event to `r`, then return `a`; on an error `undo` is what the method
-- takes back, and the error is its result.
unfoldable pub audited :
    {A : Type 0} → CallContext → AuditEvent → (Repository → Repository) → A → Repository → Outcome A
audited ctx e undo a r =
    let (result, r') = append_audit ctx e r in
    elim result [ ok _ ↦ accept a r' | err failure ↦ (err failure, undo r') ]

abbrev pub keep : Repository → Repository
keep r = r

unfoldable pub matches : AuditFilter → AuditEvent → Bool
matches f e =
    e.tenant_id == f.tenant_id
    && ltb_ℤ f.after_sequence e.sequence
    && (f.from == 0 || not (ltb e.occurred_at f.from))
    && (f.until == 0 || not (ltb f.until e.occurred_at))

-- The loop of `ListAudit`, with `taken` events in the result already.
unfoldable pub collect : AuditFilter → ℕ → List AuditEvent → List AuditEvent
collect f taken [] = []
collect f taken (e ∷ es) =
    let stop = ltb_ℤ (pos 0) f.limit && leb_ℤ f.limit (pos (ℕ.suc taken)) in
    let found = e ∷ (if stop then [] else collect f (ℕ.suc taken) es) in
    let skipped = collect f taken es in if matches f e then found else skipped

unfoldable pub list_audit : Repository → AuditFilter → List AuditEvent
list_audit r f = collect f 0 r.audit
