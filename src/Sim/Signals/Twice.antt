-- ===== src/Sim/Signals/Twice.antt =====
-- The first signal ends the simulation, and the second the process.
use g_sierra.Common.{◌≡◌, ◌≢◌, ◌∙◌, ap, true, ltb, ◌||◌, if◌then◌else◌, arith}
use g_sierra.Sim.{Hw}
use g_sierra.Sim.Top.{
  running, exited, then_dispatch, jump, hwm_signal_end_handler, hwm_sleep_until_next_timer,
  hwm_one_event,
}
use g_sierra.Sim.Signals.{
  Signal, sigterm, sigint, Sigaction, terminated, handled, SignalHost, end_action,
  hwm_set_sig_handler,
}

sigterm≢sigint : sigterm ≢ sigint
sigterm≢sigint e = cc

installed :
    (host : SignalHost) (s : Signal) (st : host.State)
    → host.action_of s (hwm_set_sig_handler host st) ≡ end_action
unfolding hwm_set_sig_handler
installed host sigterm st =
    host.action-sigaction_other sigterm sigint end_action (host.sigaction sigterm end_action st)
      sigterm≢sigint
    ∙ host.action-sigaction_self sigterm end_action st
installed host sigint st =
    host.action-sigaction_self sigint end_action (host.sigaction sigterm end_action st)

-- Once the handler has run, the next event ends the process, at the later time.
signaled_exits :
    (interrupt_raised : Hw → Hw) (h : Hw)
    → hwm_one_event interrupt_raised (hwm_signal_end_handler h)
      ≡ exited (jump (hwm_signal_end_handler h))
unfolding hwm_one_event hwm_sleep_until_next_timer hwm_signal_end_handler
signaled_exits interrupt_raised h =
    let j = jump (record h { signaled_end = true }) in
    let signaled : j.signaled_end ≡ true = ground arith in
    ap
      (λ b.
        then_dispatch interrupt_raised
          (if b || ltb j.end_of_time j.simu_time then exited j else running j))
      signaled

-- After `hwm_set_sig_handler`, by what the host documents of its signals, the first SIGTERM or SIGINT
-- runs `hwm_signal_end_handler`, after which the next event ends the process, and the second one of
-- the same signal terminates the process in any case.
pub deliver-hwm_set_sig_handler :
    (host : SignalHost) (s : Signal) (st : host.State) (interrupt_raised : Hw → Hw) (h : Hw)
    → (st' : host.State) × (host.deliver s (hwm_set_sig_handler host st)
        ≡ handled hwm_signal_end_handler st')
      × (hwm_one_event interrupt_raised (hwm_signal_end_handler h)
          ≡ exited (jump (hwm_signal_end_handler h)))
      × (host.deliver s st' ≡ terminated)
deliver-hwm_set_sig_handler host s st interrupt_raised h =
    let at = installed host s st in
    let (st', first, reset) =
      host.deliver_resets s (hwm_set_sig_handler host st) hwm_signal_end_handler
        (ap (λ (a : Sigaction). a.sa_handler) at) (ap (λ (a : Sigaction). a.resets) at) in
    (st', first, signaled_exits interrupt_raised h, host.deliver_default s st' reset)
