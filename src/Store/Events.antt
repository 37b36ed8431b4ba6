-- ===== src/Store/Events.antt =====
-- The append-only trails: `job_events` (migration 007) and `audit_log` (migration 005z).
use serv_grid.Common.{Text, ℕ, Option}
use serv_grid.Shared.Status.{JobStatus}
use serv_grid.Store.Rows.{CancellationReason, ReconciliationStatus}

pub data EventType : Type 0 where
  created_event assigned_event reassigned_event status_changed rescheduled : EventType
  completed_event completion_amended cancelled_event : EventType

pub data Source : Type 0 where
  mobile web system : Source

-- The jsonb payload, one constructor for each shape that the jobs service writes.
pub data Payload : Type 0 where
  no_payload : Payload
  clamped : ℕ → ℕ → Payload
  under_contract : Option ℕ → Payload
  replaces_job : ℕ → Payload
  cancelled_because : CancellationReason → Option Text → Option ℕ → Payload
  moved_date : Option ℕ → ℕ → Payload
  given_to : ℕ → Option ℕ → Payload
  amended : Text → ℕ × ℕ → ℕ × ℕ → Option Text × Option Text → Payload

pub record JobEvent : Type 0 where
  pub job_card_id : ℕ
  pub event_type : EventType
  pub actor_id : ℕ
  pub occurred_at : ℕ
  pub from_status : Option JobStatus
  pub to_status : Option JobStatus
  pub source : Source
  pub payload : Payload

pub data AuditEntry : Type 0 where
  -- handover, employee, actor, business date, previous amount, declared amount
  declaration_amended : ℕ → ℕ → ℕ → ℕ → ℕ → Option ℕ → AuditEntry
  -- handover, employee, actor, business date, previous status, confirmed amount, note, reason
  declaration_reopened :
      ℕ → ℕ → ℕ → ℕ → ReconciliationStatus → Option ℕ → Option Text → Text → AuditEntry
