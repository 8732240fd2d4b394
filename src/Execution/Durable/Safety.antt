-- ===== src/Execution/Durable/Safety.antt =====
-- No lost update: every call of the durable facade leaves a table that has only grown, whatever
-- lawful writers run between its table accesses, and whether the call returns or raises.
use quantora_trade.Prelude.{
  ℕ, suc, zero, String, Bool, true, false, Option, none, some, length, if◌then◌else◌, ◌||◌, ◌!=◌,
  string_eq,
}
use quantora_trade.Prelude.Dict.{Dict}
use quantora_trade.Prelude.Exec.{
  Error, Result, ok, err, Exec, pure, raise, ◌>>=◌, is_runtime_error, idempotency_conflict,
}
use quantora_trade.Execution.Models.{PaperOrder, PaperOrderRequest, PaperQuote, request_eq}
use quantora_trade.Execution.Paper.{Setup, Adapter, restore, reconcile, request_hash}
use quantora_trade.Execution.Paper
use quantora_trade.Execution.Repository.{Table, interfere}
use quantora_trade.Execution.Repository
use quantora_trade.Execution.Repository.Append.{Grows, Grows-refl, Grows-trans, persist-Grows}
use quantora_trade.Execution.Durable.{
  Durable, in_memory, recover, is_conflict, restored, replay_or_raise, get_found, load, write,
  persist_new, submit_found, submit, apply_and_write, after_race, attempt, mutate, add_liquidity,
  cancel, expire, get,
}

-- A call that leaves a table which has only grown.
abbrev pub Keeps : {A : Type 0} → Exec Durable A → Type 0
Keeps m = (s : Durable) → Grows s.table.rows (m s).1.table.rows

module _ {A : Type 0} where
  pure-Keeps : (a : A) → Keeps (pure a)
  pure-Keeps a s = Grows-refl s.table.rows

  in_memory-Keeps : (m : Exec Adapter A) → Keeps (in_memory m)
  in_memory-Keeps m s = Grows-refl s.table.rows

module _ {A B : Type 0} where
  bind-Keeps :
      (m : Exec Durable A) (f : A → Exec Durable B)
      → Keeps m
      → ((a : A) → Keeps (f a))
      → Keeps (m >>= f)
  bind-Keeps m f h k s = go (m s) (h s)
    where
      go :
          (r : Result A × Durable)
          → Grows s.table.rows r.1.table.rows
          → Grows s.table.rows (((λ _. r) >>= f) s).1.table.rows
      go (ok a, t) g = Grows-trans s.table.rows t.table.rows (f a t).1.table.rows g (k a t)
      go (err e, t) g = g

module _ {A : Type 0} where
  if-Keeps : (b : Bool) (m n : Exec Durable A) → Keeps m → Keeps n → Keeps (if b then m else n)
  if-Keeps true m n h k = h
  if-Keeps false m n h k = k

  recover-Keeps :
      (m : Exec Durable A) (caught : Error → Bool) (handler : Error → Exec Durable A)
      → Keeps m
      → ((e : Error) → Keeps (handler e))
      → Keeps (recover m caught handler)
  recover-Keeps m caught handler h k s = go (m s) (h s)
    where
      go :
          (r : Result A × Durable)
          → Grows s.table.rows r.1.table.rows
          → Grows s.table.rows (recover (λ _. r) caught handler s).1.table.rows
      go (ok a, t) g = g
      go (err e, t) g = caught_or_not (caught e)
        where
          caught_or_not :
              (b : Bool)
              → Grows s.table.rows
                  (if b
                    then handler e t
                    else (let x : Result A × Durable = (err e, t) in x)).1.table.rows
          caught_or_not true =
              Grows-trans s.table.rows t.table.rows (handler e t).1.table.rows g (k e t)
          caught_or_not false = g

module _ (setup : Setup) (others : ℕ → Dict String PaperOrder → Dict String PaperOrder)
    (lawful : (i : ℕ) (rows : Dict String PaperOrder) → Grows rows (others i rows)) where
  load-Keeps : (key : String) → Keeps (load setup others key)
  unfolding load Repository.get interfere
  load-Keeps key s = lawful s.table.accesses s.table.rows

  write-Keeps : (o : PaperOrder) (expected : ℕ) → Keeps (write setup others o expected)
  unfolding write
  write-Keeps o expected s = persist-Grows others lawful o (some expected) s.table

  restored-Keeps : (o : PaperOrder) → Keeps (restored o)
  unfolding restored
  restored-Keeps o =
      bind-Keeps (in_memory (restore o)) (λ _. pure o) (in_memory-Keeps (restore o))
        (λ _. pure-Keeps o)

  replay-Keeps :
      (candidate : PaperOrder) (e : Error) (found : Option PaperOrder)
      → Keeps (replay_or_raise candidate e found)
  unfolding replay_or_raise
  replay-Keeps candidate e none s = Grows-refl s.table.rows
  replay-Keeps candidate e (some winner) s =
      if-Keeps (winner.request_hash != candidate.request_hash) (raise e) (restored winner)
        (λ t. Grows-refl t.table.rows) (restored-Keeps winner) s

  persist_new-Keeps :
      (r : PaperOrderRequest) (candidate : PaperOrder)
      → Keeps (persist_new setup others r candidate)
  unfolding persist_new
  persist_new-Keeps r candidate =
      recover-Keeps (write setup others candidate 0) is_conflict
        (λ e. load setup others r.idempotency_key >>= replay_or_raise candidate e)
        (write-Keeps candidate 0)
        (λ e.
          bind-Keeps (load setup others r.idempotency_key) (replay_or_raise candidate e)
            (load-Keeps r.idempotency_key) (replay-Keeps candidate e))

  submit_found-Keeps :
      (r : PaperOrderRequest) (q : PaperQuote) (found : Option PaperOrder)
      → Keeps (submit_found setup others r q found)
  unfolding submit_found
  submit_found-Keeps r q none s =
      bind-Keeps (in_memory (Paper.submit setup r q)) (persist_new setup others r)
        (in_memory-Keeps (Paper.submit setup r q)) (persist_new-Keeps r) s
  submit_found-Keeps r q (some current) s =
      if-Keeps (current.request_hash != request_hash setup.libs r || current.request != r)
        (raise (idempotency_conflict "idempotency key reused with a different request"))
        (restored current) (λ t. Grows-refl t.table.rows) (restored-Keeps current) s

  submit-Keeps : (r : PaperOrderRequest) (q : PaperQuote) → Keeps (submit setup others r q)
  unfolding submit
  submit-Keeps r q =
      bind-Keeps (load setup others r.idempotency_key) (submit_found setup others r q)
        (load-Keeps r.idempotency_key) (submit_found-Keeps r q)

  after_race-Keeps :
      (left : ℕ) (again : Exec Durable PaperOrder) → Keeps again → Keeps (after_race left again)
  unfolding after_race
  after_race-Keeps zero again h s = Grows-refl s.table.rows
  after_race-Keeps (suc left) again h s = h s

  attempt-Keeps :
      (action : Exec Adapter PaperOrder) (again : Exec Durable PaperOrder)
      (found : Option PaperOrder)
      → Keeps again
      → Keeps (attempt setup others action again found)
  unfolding attempt apply_and_write
  attempt-Keeps action again none h s = Grows-refl s.table.rows
  attempt-Keeps action again (some current) h s =
      bind-Keeps (in_memory (reconcile current))
        (λ _. recover (apply_and_write setup others action current) is_runtime_error (λ e. again))
        (in_memory-Keeps (reconcile current))
        (λ _.
          recover-Keeps (apply_and_write setup others action current) is_runtime_error (λ e. again)
            (bind-Keeps (in_memory action) (λ o. write setup others o (length current.events))
              (in_memory-Keeps action) (λ o. write-Keeps o (length current.events)))
            (λ e. h))
        s

  mutate-Keeps :
      (n : ℕ) (key : String) (action : Exec Adapter PaperOrder)
      → Keeps (mutate setup others n key action)
  unfolding mutate
  mutate-Keeps zero key action s = Grows-refl s.table.rows
  mutate-Keeps (suc left) key action s =
      let again = after_race left (mutate setup others left key action) in
      bind-Keeps (load setup others key) (attempt setup others action again) (load-Keeps key)
        (λ found. attempt-Keeps action again found (
          after_race-Keeps left (mutate setup others left key action)
            (mutate-Keeps left key action)))
        s

  get_found-Keeps : (found : Option PaperOrder) → Keeps (get_found found)
  unfolding get_found
  get_found-Keeps none s = Grows-refl s.table.rows
  get_found-Keeps (some o) s = restored-Keeps o s

  get-Keeps : (key : String) → Keeps (get setup others key)
  unfolding get
  get-Keeps key = bind-Keeps (load setup others key) get_found (load-Keeps key) get_found-Keeps

  -- Every public call keeps every row of the table: the row's UUID, hash and request stay, and its
  -- events and fills are only appended to, on every branch, the errors included. The hypothesis:
  -- the other processes' writes keep the rows in the same way.
  pub no_lost_update :
      (r : PaperOrderRequest) (q : PaperQuote) (key : String)
      → Keeps (submit setup others r q)
        × Keeps (add_liquidity setup others key q)
        × Keeps (cancel setup others key)
        × Keeps (expire setup others key)
        × Keeps (get setup others key)
  unfolding add_liquidity cancel expire
  no_lost_update r q key = (
    submit-Keeps r q,
    mutate-Keeps 2 key (Paper.add_liquidity setup key q),
    mutate-Keeps 2 key (Paper.cancel setup key),
    mutate-Keeps 2 key (Paper.expire setup key),
    get-Keeps key,
  )
