-- ===== src/Application/Tests/LeaseTests.antt =====
-- The lease of the workload at two hosts.
use native.Mathlib.Decide.{ℕ_discrete}
use quantora_trade.Prelude.{ℕ, ◌<◌, ◌≡◌, refl, String_discrete, some, List, [], ◌∷◌, All, arith}
use quantora_trade.Prelude.Text.{is_blank, is_trimmed, strip}
use quantora_trade.Prelude.Exec.{ok}
use quantora_trade.Application.Worker.Lease.{
  WorkloadLease, free, Call, acquires, renews, releases, call, run, acquire_workload_lease,
  renew_workload_lease, release_workload_lease, check_window,
}
use quantora_trade.Application.Worker.Lease.Exclusion.{IsOther, acquired-stays}

unfoldable executable : Unit {0}
unfolding call run acquire_workload_lease renew_workload_lease release_workload_lease check_window
    is_blank is_trimmed strip String_discrete ℕ_discrete
executable = tt

abbrev intrusions : List Call
intrusions = acquires "b" 8 50 (some 20) ∷ renews "b" 7 50 (some 21) ∷ releases "a" 6 (some 22) ∷ []

abbrev held : WorkloadLease
held = (acquire_workload_lease "a" 7 30 (some 10) free).1

returned : (acquire_workload_lease "a" 7 30 (some 10) free).0 ≡ ok tt
unfolding executable
returned = refl

early : (now : ℕ) → some 20 ≡ some now → now < 40
early now h = ground (arith, h)

others : All (IsOther "a" 7 40) intrusions
unfolding executable
others = ((refl, early), (refl, (refl, tt)))

-- Once the lease is over, another host acquires it.
test_over : (acquire_workload_lease "b" 8 50 (some 40) held).0 ≡ ok tt
unfolding executable
test_over = refl

acquired-stays_example :
    (run intrusions held ≡ held)
    × ((renew_workload_lease "a" 7 30 (some 39) (run intrusions held)).0 ≡ ok tt)
acquired-stays_example = acquired-stays "a" 7 30 10 39 intrusions free returned others (omega arith)
