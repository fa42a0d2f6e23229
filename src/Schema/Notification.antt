-- ===== src/Schema/Notification.antt =====
-- src/notifications/notification.schema.ts with the types of notifications.constants.ts, and
-- src/admin/audit-event.schema.ts.
use chatwave_backend.Base.{ℕ, Option}
use chatwave_backend.Base.Text.{Text}

pub data NotificationType : Type 0 where
  message reaction group call missed_call system : NotificationType

pub record Notification : Type 0 where
  pub id : ℕ
  pub user : ℕ
  pub type : NotificationType
  pub title : Text
  pub body : Text
  pub conversation : Option ℕ
  pub message : Option ℕ
  pub call : Option ℕ
  pub actor : Option ℕ
  pub href : Text
  pub read_at : Option ℕ
  pub email_sent_at : Option ℕ
  pub created_at : ℕ

pub data AuditKind : Type 0 where
  signup login message media call group ban unban delete : AuditKind

pub record AuditEvent : Type 0 where
  pub id : ℕ
  pub user : ℕ
  pub actor : Option ℕ
  pub kind : AuditKind
  pub title : Text
  pub detail : Text
  pub created_at : ℕ
