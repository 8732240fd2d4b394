-- ===== src/Application/Worker/Lease/Exclusion.antt =====
-- The host that holds the lease of the workload, against all the others.
use quantora_trade.Prelude.{
  ℕ, ◌+◌, ◌<◌, ◌≡◌, refl, String, Bool, true, false, not, ◌&&◌, Option, none, some, List, [], ◌∷◌,
  ◌==◌, nat_eq, string_eq, arith, ap, ◌∙◌, All, ==_refl,
}
use quantora_trade.Prelude.Exec.{
  ok, Exec, modify, raise_if, ◌>>◌, continue-state, continue-ok, Error,
}
use quantora_trade.Infrastructure.Commands.{aware_utc, is_none, after, is_some}
use quantora_trade.Application.Worker.Lease.{
  WorkloadLease, check_window, is_over, held_by, is_free, is_live, acquire_workload_lease,
  renew_workload_lease, release_workload_lease, Call, acquires, renews, releases, call, run,
}

-- A call of another host or for another generation, before a time.
abbrev pub is_other : String → ℕ → String → ℕ → Bool
is_other owner generation o g = not (owner == o && generation == g)

abbrev pub IsOther : String → ℕ → ℕ → Call → Type 0
IsOther owner generation t (acquires o g _ clock) =
    (is_other owner generation o g ≡ true) × ((now : ℕ) → clock ≡ some now → now < t)
IsOther owner generation t (renews o g _ clock) = is_other owner generation o g ≡ true
IsOther owner generation t (releases o g clock) = is_other owner generation o g ≡ true

-- A lease of a host that lasts until a time.
abbrev IsHeld : String → ℕ → ℕ → WorkloadLease → Type 0
IsHeld owner generation t l =
    (l.lease_owner ≡ some owner)
    × (l.active_generation ≡ some generation)
    × (l.lease_expires_at ≡ some t)

aware_some : (clock : Option ℕ) (now : ℕ) → aware_utc clock ≡ ok now → clock ≡ some now
aware_some none now h = ground (arith, h)
aware_some (some t) now h = ground (arith, h)

other-held_by :
    (owner o : String) (generation g t : ℕ) (l : WorkloadLease)
    → IsHeld owner generation t l
    → is_other owner generation o g ≡ true
    → held_by o g l ≡ false
other-held_by owner o generation g t l (ho, hg, _) k =
    ap (λ x. is_some o x && is_some g l.active_generation) ho
    ∙ ap (λ x. (owner == o) && is_some g x) hg
    ∙ ground (arith, k)

other-is_free :
    (owner o : String) (generation g t now : ℕ) (l : WorkloadLease)
    → IsHeld owner generation t l
    → is_other owner generation o g ≡ true
    → now < t
    → is_free o g now l ≡ false
other-is_free owner o generation g t now l (ho, hg, ht) k n = ground (
  arith,
  ap is_none hg,
  ap (is_over now) ht,
  n,
  other-held_by owner o generation g t l (ho, hg, ht) k,
)

other-is_live :
    (owner o : String) (generation g t now : ℕ) (l : WorkloadLease)
    → IsHeld owner generation t l
    → is_other owner generation o g ≡ true
    → is_live o g now l ≡ false
other-is_live owner o generation g t now l h k =
    ground (arith, other-held_by owner o generation g t l h k)

-- A refused call writes nothing.
refused :
    (b : Bool) (e : Error) (m : Exec WorkloadLease (Unit {0})) (l : WorkloadLease)
    → b ≡ false
    → ((raise_if (not b) e >> m) l).1 ≡ l
refused true e m l h = absurd (cc h)
refused false e m l h = refl

call-IsHeld :
    (owner : String) (generation t : ℕ) (c : Call) (l : WorkloadLease)
    → IsHeld owner generation t l
    → IsOther owner generation t c
    → (call c l).1 ≡ l
unfolding call acquire_workload_lease renew_workload_lease release_workload_lease
call-IsHeld owner generation t (acquires o g d clock) l h k =
    continue-state (λ x. x ≡ l) (check_window o d) l _ refl
      λ _ _.
        continue-state (λ x. x ≡ l) (aware_utc clock) l _ refl
          λ now e.
            refused (is_free o g now l) _ _ l
              (other-is_free owner o generation g t now l h k.0 (k.1 now (aware_some clock now e)))
call-IsHeld owner generation t (renews o g d clock) l h k =
    continue-state (λ x. x ≡ l) (check_window o d) l _ refl
      λ _ _.
        continue-state (λ x. x ≡ l) (aware_utc clock) l _ refl
          λ now _.
            refused (is_live o g now l) _ _ l (other-is_live owner o generation g t now l h k)
call-IsHeld owner generation t (releases o g clock) l h k =
    continue-state (λ x. x ≡ l) (aware_utc clock) l _ refl
      λ now _. refused (is_live o g now l) _ _ l (other-is_live owner o generation g t now l h k)

run-IsHeld :
    (owner : String) (generation t : ℕ) (cs : List Call) (l : WorkloadLease)
    → IsHeld owner generation t l
    → All (IsOther owner generation t) cs
    → run cs l ≡ l
unfolding run
run-IsHeld owner generation t [] l h k = refl
run-IsHeld owner generation t (c ∷ cs) l h k =
    ap (run cs) (call-IsHeld owner generation t c l h k.0)
    ∙ run-IsHeld owner generation t cs l h k.1

wrote :
    (b : Bool) (e : Error) (f : WorkloadLease → WorkloadLease) (l : WorkloadLease)
    → ((raise_if (not b) e >> modify f) l).0 ≡ ok tt
    → ((raise_if (not b) e >> modify f) l).1 ≡ f l
wrote true e f l h = refl
wrote false e f l h = absurd (cc h)

-- An acquisition that returned was for a proper window and wrote the host's lease.
acquired :
    (owner : String) (generation duration now : ℕ) (l : WorkloadLease)
    → (acquire_workload_lease owner generation duration (some now) l).0 ≡ ok tt
    → (check_window owner duration ≡ ok tt)
      × IsHeld owner generation
          (now + duration)
          (acquire_workload_lease owner generation duration (some now) l).1
unfolding acquire_workload_lease
acquired owner generation duration now l h =
    let (_, c, h1, s1) = continue-ok (check_window owner duration) l _ tt h in
    let e = s1 ∙ wrote (is_free owner generation now l) _ _ l h1 in
    (
      c,
      (
        ap (λ (x : WorkloadLease). x.lease_owner) e,
        ap (λ (x : WorkloadLease). x.active_generation) e,
        ap (λ (x : WorkloadLease). x.lease_expires_at) e,
      ),
    )

held-is_live :
    (owner : String) (generation t now : ℕ) (l : WorkloadLease)
    → IsHeld owner generation t l
    → now < t
    → is_live owner generation now l ≡ true
held-is_live owner generation t now l (ho, hg, ht) n = ground (
  arith,
  ap (is_some owner) ho,
  ap (is_some generation) hg,
  ==_refl owner,
  ==_refl generation,
  ap (after now) ht,
  n,
)

renewed :
    (owner : String) (generation duration t now : ℕ) (l : WorkloadLease)
    → check_window owner duration ≡ ok tt
    → IsHeld owner generation t l
    → now < t
    → (renew_workload_lease owner generation duration (some now) l).0 ≡ ok tt
unfolding renew_workload_lease
renewed owner generation duration t now l c h n = rw (c, held-is_live owner generation t now l h n)

-- A host that has acquired the lease keeps it, against every call of other hosts or for other
-- generations, in any order and whatever their clocks read before the lease is over: after them the
-- row is what the host wrote, and its own renewal in time returns.
pub acquired-stays :
    (owner : String) (generation duration now later : ℕ) (cs : List Call) (l : WorkloadLease)
    → (acquire_workload_lease owner generation duration (some now) l).0 ≡ ok tt
    → All (IsOther owner generation (now + duration)) cs
    → later < now + duration
    → let held = (acquire_workload_lease owner generation duration (some now) l).1 in
      (run cs held ≡ held)
      × ((renew_workload_lease owner generation duration (some later) (run cs held)).0 ≡ ok tt)
acquired-stays owner generation duration now later cs l h k n =
    let (c, i) = acquired owner generation duration now l h in
    let held = (acquire_workload_lease owner generation duration (some now) l).1 in
    let e = run-IsHeld owner generation (now + duration) cs held i k in
    (
      e,
      ap (λ x. (renew_workload_lease owner generation duration (some later) x).0) e
          ∙ renewed owner generation duration (now + duration) later held c i n,
    )
