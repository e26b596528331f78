-- ===== src/Sim/Machine/Exec/Boot.antt =====
-- The board after `hwm_init`, with the tick that the kernel asks for, is one that `posix_exec_for` ends
-- on.
use g_sierra.Common.{ℕ, ◌+◌, ◌*◌, ◌^◌, ◌≤◌, ◌<◌, ◌≡◌, refl, ap, Bool, List, [], ◌∷◌, arith}
use g_sierra.Sim.Machine.Keeps.{Models}
use g_sierra.Sim.{Hw, IrqCtrl, hwm_get_time, hwm_find_next_timer, consider_timer, never}
use g_sierra.Sim.Irq.{hw_irq_ctrl_init}
use g_sierra.Sim.Timer.{hwtimer_init, hwtimer_enable, hwtimer_update_timer}
use g_sierra.Sim.Counter.{hw_counter_init}
use g_sierra.Sim.Top.{hwm_init, posix_exec_for}
use g_sierra.Sim.Top.Time.{IsNext}
use g_sierra.Sim.Machine.{
  Setting, irq_at_start, hw_at_start, apply_settings, initialised, run_call, run_calls,
  timer_enable,
}
use g_sierra.Sim.Machine.Calls.{run_calls-Models}
use g_sierra.Sim.Machine.Next.{run_calls-IsNext}
use g_sierra.Sim.Machine.Sound.{hwm_init-Models, hwm_init-IsNext, settings_keep}
use g_sierra.Sim.Machine.Exec.{IsTimely, IsPatient}
use g_sierra.Sim.Machine.Exec.Ends.{Ends, exec_until_stop}

-- Where `hwm_init` puts the timers.
record IsIdle (h : Hw) : Type 0 where
  time : h.simu_time ≡ 0
  tick : h.timer.hw_timer_tick_timer ≡ never
  awake : h.timer.hw_timer_awake_timer ≡ never
  irq : h.irq.irq_ctrl_timer ≡ never
  counter : h.counter.hw_counter_timer ≡ never

find-IsIdle : (h : Hw) → IsIdle h → IsIdle (hwm_find_next_timer h)
unfolding hwm_find_next_timer consider_timer
find-IsIdle h i = record {
  time = ground (arith, i.time);
  tick = ground (arith, i.tick);
  awake = ground (arith, i.awake);
  irq = ground (arith, i.irq);
  counter = ground (arith, i.counter);
}

hwm_init-IsIdle :
    (host rtc : ℕ) (h : Hw) → h.simu_time ≡ 0 → h.irq ≡ irq_at_start → IsIdle (hwm_init host rtc h)
unfolding hwm_init hwtimer_init hw_counter_init hw_irq_ctrl_init hwtimer_update_timer
hwm_init-IsIdle host rtc h time irq =
    find-IsIdle
      (record h {
        timer = hwtimer_init host rtc h.timer;
        counter = hw_counter_init h.counter;
        irq = hw_irq_ctrl_init h.irq;
      })
      (record {
        time = time;
        tick = ground arith;
        awake = ground arith;
        irq = ap (λ (c : IrqCtrl). c.irq_ctrl_timer) irq;
        counter = refl;
      })

-- What the kernel's tick changes.
record IsTicking (period : ℕ) (h : Hw) : Type 0 where
  time : h.simu_time ≡ 0
  tick : h.timer.hw_timer_tick_timer ≡ period
  step : h.timer.tick_p ≡ period
  awake : h.timer.hw_timer_awake_timer ≡ never
  irq : h.irq.irq_ctrl_timer ≡ never
  counter : h.counter.hw_counter_timer ≡ never

enable-IsTicking :
    (period : ℕ) (h : Hw) → IsIdle h → period < 2 ^ 64 → IsTicking period (hwtimer_enable period h)
unfolding hwtimer_enable hwm_get_time hwtimer_update_timer hwm_find_next_timer consider_timer
enable-IsTicking period h i fits = record {
  time = ground (arith, i.time);
  tick = ground (arith, i.time, fits);
  step = ground arith;
  awake = ground (arith, i.awake);
  irq = ground (arith, i.irq);
  counter = ground (arith, i.counter);
}

enable-IsTimely :
    (stop period : ℕ) (h : Hw)
    → IsIdle h
    → Models h.simu_time h.end_of_time h
    → 0 < period
    → stop + period < 2 ^ 64
    → IsTimely stop (hwtimer_enable period h)
unfolding run_calls run_call
enable-IsTimely stop period h i models some_ fits =
    let t = enable-IsTicking period h i (omega (arith, fits)) in
    let m = run_calls-Models (timer_enable period ∷ []) h models in
    record {
      models = (m.0, m.1, m.2, refl, refl);
      tick_ahead = omega (arith, t.time);
      awake_ahead = omega (arith, t.time);
      irq_ahead = omega (arith, t.time);
      counter_ahead = omega (arith, t.time);
      tick_moves = λ due. rw t.step (some_, fits);
      counter_moves = λ due. absurd (omega (arith, due, t.counter, fits));
    }

-- The board after `hwm_init`, whatever the settings were, and the kernel's tick.
abbrev pub started : Bool → List Setting → ℕ → ℕ → ℕ → Hw
started slowdown settings host_us realhosttime period =
    hwtimer_enable period (initialised slowdown settings host_us realhosttime)

module _ (slowdown : Bool) (settings : List Setting) (host_us realhosttime period : ℕ) where
  initialised-IsIdle : IsIdle (initialised slowdown settings host_us realhosttime)
  unfolding initialised
  initialised-IsIdle =
      let h = apply_settings settings (hw_at_start slowdown) in
      let (time, irq) = settings_keep settings (hw_at_start slowdown) in
      hwm_init-IsIdle host_us realhosttime h time irq

  pub started_time :
      period < 2 ^ 64 → (started slowdown settings host_us realhosttime period).simu_time ≡ 0
  started_time fits = (enable-IsTicking period _ initialised-IsIdle fits).time

  pub started-IsTimely :
      (stop : ℕ)
      → 0 < period
      → stop + period < 2 ^ 64
      → IsTimely stop (started slowdown settings host_us realhosttime period)
  unfolding initialised
  started-IsTimely stop some_ fits =
      let h = apply_settings settings (hw_at_start slowdown) in
      let (time, irq) = settings_keep settings (hw_at_start slowdown) in
      let m = hwm_init-Models host_us realhosttime h irq in
      enable-IsTimely stop period (hwm_init host_us realhosttime h) initialised-IsIdle
        (m.0, m.1, m.2, refl, refl) some_ fits

  pub started-IsNext : IsNext (started slowdown settings host_us realhosttime period)
  unfolding initialised run_calls run_call
  started-IsNext =
      let h = apply_settings settings (hw_at_start slowdown) in
      run_calls-IsNext (timer_enable period ∷ []) (hwm_init host_us realhosttime h)
        (hwm_init-IsNext host_us realhosttime h)

  -- Whatever the settings of the command line, once the models are initialised and the kernel has
  -- asked for a tick, `posix_exec_for` for `us` microseconds ends, at least that much later, or with
  -- the end of the process, by the signal or behind the end of time. The period is not 0, the times
  -- are of 64 bits, and the software sets timers to the future only.
  pub posix_exec_for-started :
      (us fuel : ℕ) (interrupt_raised : Hw → Hw)
      → 0 < period
      → us + period < 2 ^ 64
      → IsPatient us interrupt_raised
      → 8 * us + 7 ≤ fuel
      → Ends us (
          posix_exec_for interrupt_raised fuel us
            (started slowdown settings host_us realhosttime period))
  posix_exec_for-started us fuel interrupt_raised some_ fits patient enough =
      exec_until_stop interrupt_raised fuel us us
        (started slowdown settings host_us realhosttime period)
        (omega (arith, started_time (omega (arith, fits)))) (omega (arith, fits)) patient
        (started-IsTimely us some_ fits) started-IsNext enough
