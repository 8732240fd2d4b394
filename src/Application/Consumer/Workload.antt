-- ===== src/Application/Consumer/Workload.antt =====
-- When a command reaches the workload.
use quantora_trade.Prelude.{
  ℕ, ◌≡◌, refl, ◌⊎◌, inl, inr, Bool, true, false, Option, none, some, arith, ◌==◌, ◌!=◌, string_eq,
  if-elim, ==_eq,
}
use quantora_trade.Prelude.Exec.{
  Error, Result, ok, err, Exec, ◌>>=◌, pure, raise, continue-state, then-state, raise_if,
  permission_error,
}
use quantora_trade.Domain.Enums.{paper}
use quantora_trade.Infrastructure.Commands.{DurableSystemCommand}
use quantora_trade.Application.Worker.{PaperWorkerConfig, PaperWorkerState}
use quantora_trade.Application.Worker.Control.{start, stop, degrade, halt, control}
use quantora_trade.Application.Consumer.{
  ConsumerSetup, PaperWorkloadLifecycle, Plant, execute, perform, start_workload, stop_workload,
  after_start, after_stop, stop_active, result_of, with_workload, workload_generation, command_id,
  config_of,
}

module _ {W : Type 0} (setup : ConsumerSetup W) where
  -- A start of the workload, under the command's own generation, with the configuration of the payload,
  -- after the control has accepted the start.
  abbrev pub IsStarted : DurableSystemCommand → Plant W → W → Type 0
  IsStarted c p w =
      (workload : PaperWorkloadLifecycle W) × (config : PaperWorkerConfig)
      × (state : PaperWorkerState) × (setup.workload ≡ some workload)
      × (c.action ≡ "start")
      × (config_of setup.defaults c.payload ≡ ok config)
      × ((control setup.worker (command_id setup c.id ":start") (start paper config) p.store).0
          ≡ ok state)
      × (w ≡ (workload.start config (workload_generation setup c.id) p.work).1)

  -- A stop of the workload's active generation, after the control has accepted the stop.
  abbrev pub IsStopped : DurableSystemCommand → Plant W → W → Type 0
  IsStopped c p w =
      (workload : PaperWorkloadLifecycle W) × (generation : ℕ) × (state : PaperWorkerState)
      × (setup.workload ≡ some workload)
      × (c.action ≡ "stop")
      × (workload.active_generation p.work ≡ ok (some generation))
      × ((control setup.worker (command_id setup c.id ":stop") stop p.store).0 ≡ ok state)
      × (w ≡ (workload.stop generation p.work).1)

  abbrev pub Touches : DurableSystemCommand → Plant W → W → Type 0
  Touches c p w = (w ≡ p.work) ⊎ IsStarted c p w ⊎ IsStopped c p w

  after_start-work :
      (id : ℕ) (r : Result (Unit {0})) (p : Plant W) → (after_start setup id r p).1.work ≡ p.work
  unfolding after_start
  after_start-work id (ok _) p = refl
  after_start-work id (err e) p =
      let m =
        control setup.worker (command_id setup id ":workload-failed")
          (degrade "workload start failed") p.store in
      continue-state (λ (x : Plant W). x.work ≡ p.work) m.0 (record p { store = m.1 })
        (λ _. raise {A = PaperWorkerState} e) refl λ _ _. refl

  after_stop-work :
      (id : ℕ) (r : Result (Unit {0})) (p : Plant W) → (after_stop setup id r p).1.work ≡ p.work
  unfolding after_stop
  after_stop-work id (ok _) p = refl
  after_stop-work id (err e) p =
      let m =
        control setup.worker (command_id setup id ":stop-failed") (halt "workload stop failed")
          p.store in
      continue-state (λ (x : Plant W). x.work ≡ p.work) m.0 (record p { store = m.1 })
        (λ _. raise {A = PaperWorkerState} e) refl λ _ _. refl

  start-Touches :
      (w : PaperWorkloadLifecycle W) (c : DurableSystemCommand) (p : Plant W)
      → setup.workload ≡ some w
      → c.action ≡ "start"
      → Touches c p (start_workload setup w c p).1.work
  unfolding start_workload
  start-Touches w c p hw ha =
      continue-state Q (config_of setup.defaults c.payload) p _ (inl refl) λ config hc.
        continue-state Q
          (control setup.worker (command_id setup c.id ":start") (start paper config) p.store).0
          (record p {
            store =
                (control setup.worker (command_id setup c.id ":start") (start paper config)
                  p.store).1;
          })
          _ (inl refl)
          λ state hs. inr (inl (w, config, state, hw, ha, hc, hs, after_start-work c.id _ _))
    where
      Q : Plant W → Type 0
      Q x = Touches c p x.work

  stopped-Touches :
      (w : PaperWorkloadLifecycle W) (c : DurableSystemCommand) (p : Plant W)
      (state : PaperWorkerState) (o : Result (Option ℕ)) (v : W)
      → setup.workload ≡ some w
      → c.action ≡ "stop"
      → (control setup.worker (command_id setup c.id ":stop") stop p.store).0 ≡ ok state
      → w.active_generation p.work ≡ o
      → v ≡ (stop_active setup w o p.work).1
      → Touches c p v
  stopped-Touches w c p state (err e) v hw ha hs ho hv = inl hv
  stopped-Touches w c p state (ok none) v hw ha hs ho hv = inl hv
  stopped-Touches w c p state (ok (some g)) v hw ha hs ho hv =
      inr (inr (w, g, state, hw, ha, ho, hs, hv))

  stop-Touches :
      (w : PaperWorkloadLifecycle W) (c : DurableSystemCommand) (p : Plant W)
      → setup.workload ≡ some w
      → c.action ≡ "stop"
      → Touches c p (stop_workload setup w c p).1.work
  unfolding stop_workload
  stop-Touches w c p hw ha =
      continue-state (λ (x : Plant W). Touches c p x.work)
        (control setup.worker (command_id setup c.id ":stop") stop p.store).0
        (record p { store = (control setup.worker (command_id setup c.id ":stop") stop p.store).1 })
        _ (inl refl)
        λ state hs.
          stopped-Touches w c p state (w.active_generation p.work) _ hw ha hs refl
            (after_stop-work c.id _ _)

  with-Touches :
      (o : Option (PaperWorkloadLifecycle W))
      (f : PaperWorkloadLifecycle W → Exec (Plant W) PaperWorkerState) (c : DurableSystemCommand)
      (p : Plant W)
      → setup.workload ≡ o
      → ((w : PaperWorkloadLifecycle W) → setup.workload ≡ some w → Touches c p (f w p).1.work)
      → Touches c p (with_workload setup o f p).1.work
  with-Touches none f c p h k = inl refl
  with-Touches (some w) f c p h k = k w h

  perform-Touches :
      (c : DurableSystemCommand) (p : Plant W) → Touches c p (perform setup c p).1.work
  unfolding perform
  perform-Touches c p =
      if-elim Q (c.action == "start")
        (λ h.
          with-Touches setup.workload _ c p refl
            λ w hw. start-Touches w c p hw (==_eq c.action "start" h))
        λ _.
          if-elim Q (c.action == "stop")
            (λ h.
              with-Touches setup.workload _ c p refl
                λ w hw. stop-Touches w c p hw (==_eq c.action "stop" h))
            λ _. inl refl
    where
      Q : Exec (Plant W) PaperWorkerState → Type 0
      Q m = Touches c p (m p).1.work

  -- A command changes the workload in two cases only: a PAPER start command, whose payload is a
  -- configuration and whose start the worker's control has accepted, starts it once with that
  -- configuration under the command's own generation; and a PAPER stop command, whose stop the
  -- control has accepted, stops it once, the generation that is active. Every refused, unknown or
  -- other-mode command leaves the workload alone.
  pub execute-Touches :
      (c : DurableSystemCommand) (p : Plant W)
      → ((execute setup c p).1.work ≡ p.work)
        ⊎ ((c.mode ≡ "paper") × Touches c p (execute setup c p).1.work)
  unfolding execute
  execute-Touches c p = guarded (c.mode != "paper") (λ h. ground (arith, h))
    where
      Q : Plant W → Type 0
      Q x = (x.work ≡ p.work) ⊎ ((c.mode ≡ "paper") × Touches c p x.work)

      failure : Error
      failure = permission_error "worker command must be PAPER mode"

      guarded :
          (b : Bool)
          → (b ≡ false → c.mode ≡ "paper")
          → Q
              ((raise_if b failure >>= λ _.
                  perform setup c >>= λ state. pure (result_of setup state))
                p).1
      guarded true h = inl refl
      guarded false h =
          then-state Q (perform setup c p) _ (λ _ _. refl) (inr (h refl, perform-Touches c p))
