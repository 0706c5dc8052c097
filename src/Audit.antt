-- ===== src/Audit.antt =====
-- apps/api/src/common/audit/audit.service.ts: the log of the class AuditService. An entry keeps its
-- workflow, action, status and reasoning; the data it carries and the actor, which the request
-- context gives, are left out.
use autonomous_enterprise.Shared.{String, ◌==◌, List, [], ◌∷◌, ◌++◌, filter_by}

pub data AuditStatus : Type 0 where
  success failure rejected : AuditStatus

pub record AuditRecord : Type 0 where
  pub workflow_id : String
  pub action : String
  pub status : AuditStatus
  pub reasoning : String

-- `record` without its option `skipIfAlreadyRecorded`, which the workflows do not use.
abbrev pub log_audit : AuditRecord → List AuditRecord → List AuditRecord
log_audit entry logs = logs ++ entry ∷ []

unfoldable pub get_logs_by_workflow : String → List AuditRecord → List AuditRecord
get_logs_by_workflow id logs = filter_by (λ log. log.workflow_id == id) logs
