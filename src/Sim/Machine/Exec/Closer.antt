-- ===== src/Sim/Machine/Exec/Closer.antt =====
-- An event before `stop` brings the loop closer to its end.
use g_sierra.Common.{
  ℕ, ◌+◌, ◌^◌, ◌≤◌, ◌<◌, ◌≡◌, refl, ◌==◌, ap, ◌⊎◌, inl, inr, if_either, ltb, Bool-cases, arith,
}
use g_sierra.Sim.{Hw, TimerModel, CounterModel, TimerIndex, consider_timer, never}
use g_sierra.Sim.Timer.{hwtimer_timer_reached}
use g_sierra.Sim.Timer.Earliest.{IsEarliest}
use g_sierra.Sim.Counter.{hw_counter_triggered}
use g_sierra.Sim.Machine.Keeps.{timer_reached-Models, counter_triggered-Models}
use g_sierra.Sim.Machine.Exec.{IsLater, IsTimely, due, measure}
use g_sierra.Sim.Machine.Exec.Timers.{TimerReached, hwtimer_timer_reached_lem}
use g_sierra.Sim.Machine.Exec.Counters.{hw_counter_triggered_lem}

pub due_le : (now now' a b : ℕ) → now' ≡ now → IsLater now a b → due now' b ≤ due now a
due_le now now' a b e l = ground (arith, e, l)

pub due_bound : (now t : ℕ) → due now t ≤ 1
due_bound now t = ground arith

pub due_less : (now now' a b : ℕ) → now' ≡ now → a ≡ now → now < b → due now' b < due now a
due_less now now' a b e at later = ground (arith, e, at, later)

module _ (stop : ℕ) (in_range : stop < 2 ^ 64) where
  -- A state that the loop may go on from, with less to do.
  abbrev pub Closer : ℕ → Hw → Type 0
  Closer m s = IsTimely stop s × (measure stop s < m)

  -- Only the choice of the next timer, and the time up to the earliest timer, may differ.
  pub chosen-IsTimely :
      (h : Hw) (i : TimerIndex) (t : ℕ)
      → IsTimely stop h
      → IsTimely stop (record h { next_timer_index = i; next_timer_time = t })
  chosen-IsTimely h i t y = record {
    models = y.models;
    tick_ahead = y.tick_ahead;
    awake_ahead = y.awake_ahead;
    irq_ahead = y.irq_ahead;
    counter_ahead = y.counter_ahead;
    tick_moves = y.tick_moves;
    counter_moves = y.counter_moves;
  }

  pub consider-Closer :
      (m : ℕ) (i : TimerIndex) (t : ℕ) (h : Hw) → Closer m h → Closer m (consider_timer i t h)
  unfolding consider_timer
  consider-Closer m i t h (y, less) =
      if_either (Closer m) (ltb t h.next_timer_time)
        (record h { next_timer_index = i; next_timer_time = t }) h (chosen-IsTimely h i t y, less)
        (y, less)

  -- Where the timer model's two timers are afterwards.
  tick_cases :
      (j s : Hw)
      → TimerReached j s
      → IsTimely stop j
      → j.simu_time < stop
      → j.timer.hw_timer_timer ≡ j.simu_time
      → ((j.timer.hw_timer_tick_timer ≡ j.simu_time)
          × (s.timer.hw_timer_tick_timer ≡ j.simu_time + j.timer.tick_p)
          × (0 < j.timer.tick_p))
        ⊎ ((j.simu_time < j.timer.hw_timer_tick_timer)
            × (s.timer.hw_timer_tick_timer ≡ j.timer.hw_timer_tick_timer))
  tick_cases j s r y lt e =
      elim (Bool-cases (j.timer.hw_timer_tick_timer == j.timer.hw_timer_timer)) [
        | inl same ↦
            let at : j.timer.hw_timer_tick_timer ≡ j.simu_time = ground (arith, same, e) in
            let (some_, fits) = y.tick_moves (omega (arith, at, lt)) in
            inl (at, ground (arith, r.tick_after, same, at, fits), some_)
        | inr other ↦
            inr (ground (arith, other, e, y.tick_ahead), ground (arith, r.tick_after, other))
      ]

  awake_cases :
      (j s : Hw)
      → TimerReached j s
      → IsTimely stop j
      → j.timer.hw_timer_timer ≡ j.simu_time
      → ((j.timer.hw_timer_awake_timer ≡ j.simu_time) × (s.timer.hw_timer_awake_timer ≡ never))
        ⊎ ((j.simu_time < j.timer.hw_timer_awake_timer)
            × (s.timer.hw_timer_awake_timer ≡ j.timer.hw_timer_awake_timer))
  awake_cases j s r y e =
      elim (Bool-cases (j.timer.hw_timer_awake_timer == j.timer.hw_timer_timer)) [
        | inl same ↦ inl (ground (arith, same, e), ground (arith, r.awake_after, same))
        | inr other ↦
            inr (ground (arith, other, e, y.awake_ahead), ground (arith, r.awake_after, other))
      ]

  pub timer-Closer :
      (j : Hw)
      → IsTimely stop j
      → j.simu_time < stop
      → j.timer.hw_timer_timer ≡ j.simu_time
      → Closer (measure stop j) (hwtimer_timer_reached j)
  unfolding IsEarliest
  timer-Closer j y lt e =
      let s = hwtimer_timer_reached j in
      let r = hwtimer_timer_reached_lem j in
      let m = timer_reached-Models j y.models in
      let t = tick_cases j s r y lt e in
      let a = awake_cases j s r y e in
      let counter = ap (λ (k : CounterModel). k.hw_counter_timer) r.counter in
      let period = ap (λ (k : CounterModel). k.counter_period) r.counter in
      (
        record {
          models = (m.0, m.1, m.2, refl, refl);
          tick_ahead = omega (arith, r.time, t, y.tick_ahead);
          awake_ahead = omega (arith, r.time, a, in_range, lt);
          irq_ahead = omega (arith, r.time, r.irq, y.irq_ahead);
          counter_ahead = omega (arith, r.time, counter, y.counter_ahead);
          tick_moves = λ h. ground (arith, y.tick_moves, r.period, t, h, lt);
          counter_moves = λ h. ground (arith, y.counter_moves, counter, period, h);
        },
        ground (arith, r.time, t, a, counter, r.irq, e, lt),
      )

  pub counter-Closer :
      (j : Hw)
      → IsTimely stop j
      → j.simu_time < stop
      → j.counter.hw_counter_timer ≡ j.simu_time
      → Closer (measure stop j) (hw_counter_triggered j)
  counter-Closer j y lt e =
      let s = hw_counter_triggered j in
      let r = hw_counter_triggered_lem j in
      let m = counter_triggered-Models j y.models in
      let (some_, fits) = y.counter_moves (omega (arith, e, lt)) in
      let later : j.simu_time < s.counter.hw_counter_timer =
        ground (arith, r.counter_after, lt, in_range, some_, fits) in
      let tick = ap (λ (t : TimerModel). t.hw_timer_tick_timer) r.timer in
      let awake = ap (λ (t : TimerModel). t.hw_timer_awake_timer) r.timer in
      let period = ap (λ (t : TimerModel). t.tick_p) r.timer in
      (
        record {
          models = (m.0, m.1, m.2, refl, refl);
          tick_ahead = omega (arith, r.time, tick, y.tick_ahead);
          awake_ahead = omega (arith, r.time, awake, y.awake_ahead);
          irq_ahead = omega (arith, r.time, r.irq, y.irq_ahead);
          counter_ahead = omega (arith, r.time, later);
          tick_moves = λ h. ground (arith, y.tick_moves, tick, period, h);
          counter_moves = λ h. ground (arith, r.period, some_, fits);
        },
        ground (arith, r.time, tick, awake, later, r.irq, e, lt),
      )
