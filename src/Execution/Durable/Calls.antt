-- ===== src/Execution/Durable/Calls.antt =====
-- The errors of the durable facade, and its orders against the repository's checks.
use quantora_trade.Prelude.{
  ℕ, suc, zero, ◌+◌, ◌≡◌, String, true, Option, none, some, arith, ◌⊎◌, inl, inr, string_eq, List,
  All,
}
use quantora_trade.Prelude.Dict.{Dict, lookup, insert}
use quantora_trade.Prelude.Exec.{
  Error, ok, err, Exec, ◌>>◌, is_runtime_error, idempotency_conflict, reconciliation_required,
}
use quantora_trade.Domain.Enums.{paper}
use quantora_trade.Execution.Models.{
  PaperOrder, PaperOrderRequest, request_eq, order_eq, check_request,
}
use quantora_trade.Execution.Paper.{
  Setup, Adapter, Call, reconcile, request_hash, store, run, empty,
}
use quantora_trade.Execution.Paper.Store.{IsProper, run-empty-AllSound}
use quantora_trade.Execution.Repository.{
  Table, interfere, insert_row, update_row, persist, collides, misses, validate,
}
use quantora_trade.Execution.Repository
use quantora_trade.Execution.Repository.Validation.{is_digest, validate-IsPersistable}
use quantora_trade.Execution.Durable.{
  Durable, in_memory, recover, load, apply_and_write, after_race, attempt, mutate,
}

check_request-mode : (r : PaperOrderRequest) → check_request r ≡ ok tt → r.mode ≡ paper
unfolding check_request
check_request-mode r h = ground arith

-- Every order that the adapter holds after any calls that a caller may make passes the checks that
-- the repository makes before it writes. The hypothesis: the hash function returns 64 hex digits.
pub run-validate :
    (setup : Setup) (cs : List Call) (key : String) (o : PaperOrder)
    → ((text : String) → is_digest (setup.libs.sha256 text) ≡ true)
    → All (IsProper setup) cs
    → lookup key (run setup cs empty).orders ≡ some o
    → validate o ≡ ok tt
unfolding request_hash
run-validate setup cs key o digests p found =
    let s = run-empty-AllSound setup cs p key o found in
    (validate-IsPersistable o).1 (record {
      in_paper_mode = check_request-mode o.request s.checked;
      hashed = rw s.identified.same_hash (digests _);
      history = s.valid.history;
      summed = s.valid.summed;
      within = s.valid.within;
    })

-- The `RuntimeError` by which a mutation tells its caller that it lost two races.
abbrev pub lost_races : Error
lost_races = reconciliation_required "concurrent PAPER mutation requires explicit reconciliation"

-- A call whose runtime errors are all of that kind.
abbrev pub Reports : Exec Durable PaperOrder → Type 0
Reports m = (s : Durable) (e : Error) → (m s).0 ≡ err e → is_runtime_error e ≡ true → e ≡ lost_races

recover-Reports :
    (m : Exec Durable PaperOrder) (again : Exec Durable PaperOrder)
    → Reports again
    → Reports (recover m is_runtime_error (λ e. again))
recover-Reports m again h s e raised runtime = ground (arith, h (m s).1 e)

reconcile_cases :
    (o : PaperOrder) (a : Adapter)
    → (reconcile o a
        ≡ (err (idempotency_conflict "durable state belongs to a different request"), a))
      ⊎ (reconcile o a ≡ (ok tt, record a { orders = insert o.request.idempotency_key o a.orders }))
unfolding reconcile store
reconcile_cases o a = ground arith

reconcile_first :
    (current : PaperOrder) (m : Exec Durable PaperOrder)
    → Reports m
    → Reports (in_memory (reconcile current) >> m)
reconcile_first current m h s e raised runtime = elim (reconcile_cases current s.memory) [
  | inl bad ↦ ground arith
  | inr good ↦
      h
        (record s {
          memory = record s.memory {
            orders = insert current.request.idempotency_key current s.memory.orders;
          };
        })
        e (ground arith) runtime
]

module _ (setup : Setup) (others : ℕ → Dict String PaperOrder → Dict String PaperOrder) where
  after_race-Reports :
      (left : ℕ) (again : Exec Durable PaperOrder) → Reports again → Reports (after_race left again)
  unfolding after_race
  after_race-Reports zero again h s e raised runtime = ground arith
  after_race-Reports (suc left) again h s e raised runtime = h s e raised runtime

  attempt-Reports :
      (action : Exec Adapter PaperOrder) (again : Exec Durable PaperOrder)
      (found : Option PaperOrder)
      → Reports again
      → Reports (attempt setup others action again found)
  unfolding attempt
  attempt-Reports action again none h s e raised runtime = ground arith
  attempt-Reports action again (some current) h s e raised runtime =
      reconcile_first current
        (recover (apply_and_write setup others action current) is_runtime_error (λ x. again))
        (recover-Reports (apply_and_write setup others action current) again h) s e raised runtime

  -- However often other processes win the race, a mutation ends, and the only RuntimeError that it
  -- raises is the one that asks for an explicit reconciliation: an update conflict is never passed
  -- on to the caller.
  pub mutate-Reports :
      (left : ℕ) (key : String) (action : Exec Adapter PaperOrder) (s : Durable) (e : Error)
      → (mutate setup others left key action s).0 ≡ err e
      → is_runtime_error e ≡ true
      → e ≡ lost_races
  unfolding mutate load Repository.get interfere
  mutate-Reports zero key action s e raised runtime = ground arith
  mutate-Reports (suc left) key action s e raised runtime =
      let again = after_race left (mutate setup others left key action) in
      let rows = others s.table.accesses s.table.rows in
      let t = record s {
        table = record s.table { rows = rows; accesses = s.table.accesses + 1 };
      } in
      attempt-Reports action again (lookup key rows)
        (after_race-Reports left (mutate setup others left key action)
          (mutate-Reports left key action))
        t e raised runtime
