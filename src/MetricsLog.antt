-- ===== src/MetricsLog.antt =====
-- When the server logs its metrics (ChatServerShared/MetricsLogPolicy.h). Times are whole ticks of the
-- clock; `second` is the number of ticks of a second.
pub mod Spacing
use cpp_chat.Base.{ltb, ◌==◌, if◌then◌else◌, ℕ, ◌+◌, ◌-◌, ◌*◌, ◌/◌, Bool, true, not, ◌&&◌, ◌||◌}
use cpp_chat.Executor.{Metrics}

pub data Decision : Type 0 where
  quiet summary warning : Decision

pub record Policy (Double : Type 0) : Type 0 where
  pub reported : Metrics Double
  pub last_summary : ℕ
  pub last_warning : ℕ
  pub interval : ℕ
  pub warned : Bool

module _ {Double : Type 0} where
  abbrev pub has_errors : Metrics Double → Policy Double → Bool
  has_errors current p =
      not (current.failed == p.reported.failed) || not (current.rejected == p.reported.rejected)

  abbrev pub has_activity : Metrics Double → Policy Double → Bool
  has_activity current p =
      has_errors current p
      || (not (current.completed == p.reported.completed)
          || (not (current.queued == 0)
              || (not (current.active == 0)
                  || (not (p.reported.queued == 0) || not (p.reported.active == 0)))))

  -- SetInterval.
  abbrev pub set_interval : ℕ → Policy Double → Policy Double
  set_interval interval p = record p { interval = interval }

  -- Check.
  unfoldable pub check : ℕ → Metrics Double → ℕ → Bool → Policy Double → Policy Double × Decision
  check second current now force p =
      if not (has_activity current p)
      then (p, quiet)
      else if has_errors current p
      then (if not force && (p.warned && ltb now (p.last_warning + 60 * second))
          then (p, quiet)
          else (
            record p { reported = current; last_summary = now; last_warning = now; warned = true },
            warning,
          ))
      else if not force && ltb now (p.last_summary + p.interval)
      then (p, quiet)
      else (record p { reported = current; last_summary = now }, summary)
