-- ===== src/Application/Worker/Lease.antt =====
-- The lease of the workload, one for the whole database: acquire_workload_lease and its siblings of
-- src/quantora_trade/infrastructure/database/worker_repository.py. A method is one transaction on the
-- row, by any host, and takes what the host's clock returns in it (`none` for a naive datetime); a
-- duration of zero stands for a negative one too, which is refused alike.
pub mod Exclusion
use quantora_trade.Prelude.{
  ℕ, ◌+◌, ◌<◌, ◌≡◌, refl, String, Bool, true, false, not, ◌&&◌, ◌||◌, Option, none, some, List, [],
  ◌∷◌, ◌==◌, leb, nat_eq, string_eq, arith, ap, ◌∙◌, All, ==_refl,
}
use quantora_trade.Prelude.Text.{is_blank, is_trimmed}
use quantora_trade.Prelude.Exec.{
  value_error, permission_error, Check, check, ◌⨾◌, ok, Exec, lift, gets, modify, raise_if, ◌>>=◌,
  ◌>>◌, continue-state, continue-ok, Error,
}
use quantora_trade.Infrastructure.Commands.{aware_utc, is_none, after, is_some}

pub record WorkloadLease : Type 0 where
  pub active_generation : Option ℕ
  pub lease_owner : Option String
  pub lease_heartbeat_at : Option ℕ
  pub lease_expires_at : Option ℕ

abbrev pub free : WorkloadLease
free = record {
  active_generation = none;
  lease_owner = none;
  lease_heartbeat_at = none;
  lease_expires_at = none;
}

unfoldable pub check_window : String → ℕ → Check
check_window owner duration =
    check (is_blank owner || not (is_trimmed owner))
      (value_error "lease owner must be non-empty and trimmed")
    ⨾ check (duration == 0) (value_error "lease duration must be positive")

-- `expires <= now`, which no missing value is.
abbrev pub is_over : ℕ → Option ℕ → Bool
is_over now none = false
is_over now (some t) = leb t now

abbrev pub held_by : String → ℕ → WorkloadLease → Bool
held_by owner generation l = is_some owner l.lease_owner && is_some generation l.active_generation

abbrev pub is_free : String → ℕ → ℕ → WorkloadLease → Bool
is_free owner generation now l =
    is_none l.active_generation || is_over now l.lease_expires_at || held_by owner generation l

abbrev pub is_live : String → ℕ → ℕ → WorkloadLease → Bool
is_live owner generation now l = held_by owner generation l && after now l.lease_expires_at

unfoldable pub acquire_workload_lease : String → ℕ → ℕ → Option ℕ → Exec WorkloadLease (Unit {0})
acquire_workload_lease owner generation duration clock = do
  lift (check_window owner duration)
  now ← lift (aware_utc clock)
  acquired ← gets (is_free owner generation now)
  raise_if (not acquired) (permission_error "PAPER workload lease is owned by another host")
  modify λ l. record {
    active_generation = some generation;
    lease_owner = some owner;
    lease_heartbeat_at = some now;
    lease_expires_at = some (now + duration);
  }

unfoldable pub renew_workload_lease : String → ℕ → ℕ → Option ℕ → Exec WorkloadLease (Unit {0})
renew_workload_lease owner generation duration clock = do
  lift (check_window owner duration)
  now ← lift (aware_utc clock)
  renewed ← gets (is_live owner generation now)
  raise_if (not renewed) (permission_error "PAPER workload generation is fenced")
  modify λ l. record l { lease_heartbeat_at = some now; lease_expires_at = some (now + duration) }

unfoldable pub release_workload_lease : String → ℕ → Option ℕ → Exec WorkloadLease (Unit {0})
release_workload_lease owner generation clock = do
  now ← lift (aware_utc clock)
  released ← gets (is_live owner generation now)
  raise_if (not released) (permission_error "PAPER workload release is fenced")
  modify λ l. free

-- A call by a host for its generation.
pub data Call : Type 0 where
  acquires renews : String → ℕ → ℕ → Option ℕ → Call
  releases : String → ℕ → Option ℕ → Call

unfoldable pub call : Call → Exec WorkloadLease (Unit {0})
call (acquires owner generation duration clock) =
    acquire_workload_lease owner generation duration clock
call (renews owner generation duration clock) = renew_workload_lease owner generation duration clock
call (releases owner generation clock) = release_workload_lease owner generation clock

unfoldable pub run : List Call → WorkloadLease → WorkloadLease
run [] l = l
run (c ∷ cs) l = run cs (call c l).1
