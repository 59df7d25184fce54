-- ===== src/Audit.antt =====
-- crates/central/src/audit.rs: the audit log.
use oidc_agent_compat.Prelude.{[], ◌∷◌, ◌++◌}
use oidc_agent_compat.Error.{Error}
use oidc_agent_compat.Entity.{AuditEntry, AuditLog}
use oidc_agent_compat.World.{World, Exec, ◌>>=◌, write, now_utc, new_v4, format_time}

abbrev pub insert_entry : AuditLog → World → World
insert_entry row w = record w { audit_log = w.audit_log ++ row ∷ [] }

unfoldable pub record_entry : AuditEntry → Exec Error (Unit {0})
record_entry entry = do
  id ← new_v4
  now ← now_utc
  write "audit insert"
      (insert_entry (record { id = id; created_at = format_time now; entry = entry }))
