-- ===== src/Sim/Machine/Exec/Dispatch.antt =====
-- Whichever timer is served, the loop comes closer to its end.
use g_sierra.Common.{ℕ, ◌^◌, ◌<◌, ◌≡◌, refl, false, Bool, not, ◌||◌, if_either, arith}
use g_sierra.Sim.{
  Hw, TimerIndex, hwtimer, irqcnt, hw_counter, no_timer, consider_timer, hwm_find_next_timer, never,
}
use g_sierra.Sim.Irq.{irq_raising_from_hw_now, hw_irq_ctrl_timer_triggered}
use g_sierra.Sim.Timer.{hwtimer_timer_reached}
use g_sierra.Sim.Counter.{hw_counter_triggered}
use g_sierra.Sim.Top.{running, dispatch}
use g_sierra.Sim.Top.Time.{timer_of}
use g_sierra.Sim.Machine.Keeps.{same_sets}
use g_sierra.Sim.Machine.Exec.{IsTimely, IsPatient, measure}
use g_sierra.Sim.Machine.Exec.Closer.{
  due_le, due_less, Closer, chosen-IsTimely, consider-Closer, timer-Closer, counter-Closer,
}

module _ (stop : ℕ) (in_range : stop < 2 ^ 64) (interrupt_raised : Hw → Hw)
    (patient : IsPatient stop interrupt_raised) where
  -- The controller without its timer.
  waiting :
      (j : Hw) (b : Bool)
      → IsTimely stop j
      → j.simu_time < stop
      → IsTimely stop (record j { irq = record j.irq { irq_ctrl_timer = never; lock_ignore = b } })
  waiting j b y lt =
      let m = y.models in
      record {
        models = (
          m.0,
          same_sets j.irq (record j.irq { irq_ctrl_timer = never; lock_ignore = b }) refl refl m.1,
          m.2,
          refl,
          refl,
        );
        tick_ahead = y.tick_ahead;
        awake_ahead = y.awake_ahead;
        irq_ahead = omega (arith, lt, in_range);
        counter_ahead = y.counter_ahead;
        tick_moves = y.tick_moves;
        counter_moves = y.counter_moves;
      }

  irq-Closer :
      (j : Hw)
      → IsTimely stop j
      → j.simu_time < stop
      → j.irq.irq_ctrl_timer ≡ j.simu_time
      → Closer stop in_range (measure stop j) (hw_irq_ctrl_timer_triggered interrupt_raised j)
  unfolding hw_irq_ctrl_timer_triggered irq_raising_from_hw_now
  irq-Closer j y lt e =
      let quiet = record j { irq = record j.irq { irq_ctrl_timer = never } } in
      let open_ = record j { irq = record j.irq { irq_ctrl_timer = never; lock_ignore = false } } in
      if_either (Closer stop in_range (measure stop j)) (not j.irq.irqs_locked || j.irq.lock_ignore)
        (interrupt_raised open_) quiet
        (
          patient.timely open_ (waiting j false y lt),
          (let s = interrupt_raised open_ in
              let e' = patient.time open_ in
              omega (
                arith,
                e',
                due_le _ s.simu_time _ s.timer.hw_timer_tick_timer e' (patient.tick open_),
                due_le _ s.simu_time _ s.timer.hw_timer_awake_timer e' (patient.awake open_),
                due_le _ s.simu_time _ s.counter.hw_counter_timer e' (patient.counter open_),
                due_less j.simu_time s.simu_time j.irq.irq_ctrl_timer s.irq.irq_ctrl_timer e' e
                    (omega (arith, patient.irq open_, lt, in_range)),
              )),
        )
        (waiting j j.irq.lock_ignore y lt, ground (arith, e, lt, in_range))

  find-Closer :
      (m : ℕ) (s : Hw) → Closer stop in_range m s → Closer stop in_range m (hwm_find_next_timer s)
  unfolding hwm_find_next_timer
  find-Closer m s y =
      let h₁ = record s { next_timer_index = hwtimer; next_timer_time = s.timer.hw_timer_timer } in
      consider-Closer stop in_range m hw_counter s.counter.hw_counter_timer
        (consider_timer irqcnt s.irq.irq_ctrl_timer h₁)
        (consider-Closer stop in_range m irqcnt s.irq.irq_ctrl_timer h₁
          (chosen-IsTimely stop in_range s hwtimer s.timer.hw_timer_timer y.0, y.1))

  pub dispatch-Closer :
      (i : TimerIndex) (j h' : Hw)
      → IsTimely stop j
      → j.simu_time < stop
      → ((d : ℕ) → timer_of i j d ≡ j.simu_time)
      → dispatch interrupt_raised i j ≡ running h'
      → Closer stop in_range (measure stop j) h'
  unfolding dispatch
  dispatch-Closer hwtimer j h' y lt at e =
      let same : h' ≡ hwm_find_next_timer (hwtimer_timer_reached j) = cc in
      rw same (find-Closer _ (hwtimer_timer_reached j) (timer-Closer stop in_range j y lt (at 0)))
  dispatch-Closer irqcnt j h' y lt at e =
      let s = hw_irq_ctrl_timer_triggered interrupt_raised j in
      let same : h' ≡ hwm_find_next_timer s = cc in
      rw same (find-Closer _ s (irq-Closer j y lt (at 0)))
  dispatch-Closer hw_counter j h' y lt at e =
      let same : h' ≡ hwm_find_next_timer (hw_counter_triggered j) = cc in
      rw same (find-Closer _ (hw_counter_triggered j) (counter-Closer stop in_range j y lt (at 0)))
  dispatch-Closer no_timer j h' y lt at e = cc
