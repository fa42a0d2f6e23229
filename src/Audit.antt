-- ===== src/Audit.antt =====
-- src/admin/audit.service.ts.
use chatwave_backend.Base.{ℕ, Option, [], ◌∷◌, ◌++◌}
use chatwave_backend.Base.Text.{Text}
use chatwave_backend.Schema.Notification.{AuditKind}
use chatwave_backend.World.State.{Action, gets, modify, ◌>>=◌}
use chatwave_backend.World.Effects.{fresh_id}

unfoldable pub log : ℕ → Option ℕ → AuditKind → Text → Text → Action (Unit {0})
log user actor kind title detail = do
  now ← gets (λ w. w.now)
  id ← fresh_id
  modify (λ w. record w {
    audits =
        w.audits
        ++ record {
          id = id;
          user = user;
          actor = actor;
          kind = kind;
          title = title;
          detail = detail;
          created_at = now;
        }
          ∷ [];
  })
