-- ===== src/Tests/Exec.antt =====
-- The loop over the events, with a kernel that asks to be woken.
use g_sierra.Common.{ℕ, ◌+◌, ◌≡◌, refl, ap, [], ◌∷◌, inl, false, arith}
use g_sierra.Sim.{Hw, IrqCtrl, CounterModel, hwm_find_next_timer, consider_timer}
use g_sierra.Sim.Timer.{hwtimer_wake_in_time, hwtimer_update_timer}
use g_sierra.Sim.Top.{posix_exec_for}
use g_sierra.Sim.Machine.{end_of_time, wake_in_time, run_call, run_calls}
use g_sierra.Sim.Machine.Keeps.{Models}
use g_sierra.Sim.Machine.Calls.{run_calls-Models}
use g_sierra.Sim.Machine.Exec.{IsTimely, IsPatient, IsLater}
use g_sierra.Sim.Machine.Exec.Boot.{started, started_time, started-IsTimely, started-IsNext}
use g_sierra.Sim.Machine.Exec.Ends.{Ends, posix_exec_for_lem}

-- A kernel that asks to be woken in 500 microseconds.
abbrev pub asks : Hw → Hw
asks h = hwtimer_wake_in_time (h.simu_time + 500) h

record Asked (h s : Hw) : Type 0 where
  time : s.simu_time ≡ h.simu_time
  irq : s.irq ≡ h.irq
  counter : s.counter ≡ h.counter
  tick : s.timer.hw_timer_tick_timer ≡ h.timer.hw_timer_tick_timer
  period : s.timer.tick_p ≡ h.timer.tick_p
  awake : IsLater h.simu_time h.timer.hw_timer_awake_timer s.timer.hw_timer_awake_timer

asks-Asked : (h : Hw) → Asked h (asks h)
unfolding hwtimer_wake_in_time hwtimer_update_timer hwm_find_next_timer consider_timer
asks-Asked h = record {
  time = ground arith;
  irq = ground arith;
  counter = ground arith;
  tick = ground arith;
  period = ground arith;
  awake = ground arith;
}

asks-IsTimely : (stop : ℕ) (h : Hw) → IsTimely stop h → IsTimely stop (asks h)
asks-IsTimely stop h y =
    let a = asks-Asked h in
    let m : Models h.simu_time h.end_of_time (asks h) =
      unfold run_calls run_call in
      run_calls-Models (wake_in_time (h.simu_time + 500) ∷ []) h y.models in
    record {
      models = (m.0, m.1, m.2, refl, refl);
      tick_ahead = omega (arith, a.time, a.tick, y.tick_ahead);
      awake_ahead = omega (arith, a.time, a.awake, y.awake_ahead);
      irq_ahead = omega (arith, a.time, ap (λ (c : IrqCtrl). c.irq_ctrl_timer) a.irq, y.irq_ahead);
      counter_ahead =
          omega (
            arith,
            a.time,
            ap (λ (k : CounterModel). k.hw_counter_timer) a.counter,
            y.counter_ahead,
          );
      tick_moves = λ e. rw a.period (y.tick_moves (omega (arith, a.tick, e)));
      counter_moves = λ e. rw a.counter (y.counter_moves (rw a.counter at e));
    }

pub asks-IsPatient : (stop : ℕ) → IsPatient stop asks
asks-IsPatient stop = record {
  time = λ h. (asks-Asked h).time;
  timely = asks-IsTimely stop;
  irq = λ h. ap (λ (c : IrqCtrl). c.irq_ctrl_timer) (asks-Asked h).irq;
  tick = λ h. inl (asks-Asked h).tick;
  awake = λ h. (asks-Asked h).awake;
  counter = λ h. inl (ap (λ (k : CounterModel). k.hw_counter_timer) (asks-Asked h).counter);
}

-- The board with a tick of 1000 microseconds.
abbrev booted : Hw
booted = started false (end_of_time 9000 ∷ []) 70 90 1000

booted_time : booted.simu_time ≡ 0
booted_time = started_time false (end_of_time 9000 ∷ []) 70 90 1000 (omega arith)

posix_exec_for_lem_example : Ends (booted.simu_time + 3500) (posix_exec_for asks 28007 3500 booted)
posix_exec_for_lem_example =
    posix_exec_for_lem asks 28007 3500 booted (omega (arith, booted_time))
      (asks-IsPatient (booted.simu_time + 3500))
      (started-IsTimely false (end_of_time 9000 ∷ []) 70 90 1000 (booted.simu_time + 3500)
        (omega arith) (omega (arith, booted_time)))
      (started-IsNext false (end_of_time 9000 ∷ []) 70 90 1000) (omega arith)
