-- ===== src/Sim/Machine/Exec/Forward.antt =====
-- The jump to the time of the next timer, which is not in the past.
use g_sierra.Common.{
  ℕ, ◌≤◌, ◌<◌, ◌≡◌, ◌≢◌, refl, inl, inr, not, if_true, ltb, ltb→lt, Bool-cases, arith,
}
use g_sierra.Sim.{Hw, TimerIndex, hwtimer, irqcnt, hw_counter, no_timer}
use g_sierra.Sim.Timer.Earliest.{IsEarliest}
use g_sierra.Sim.Top.{jump}
use g_sierra.Sim.Top.Time.{IsNext, timer_of, later}
use g_sierra.Sim.Machine.Sound.{known_timer}
use g_sierra.Sim.Machine.Exec.{IsTimely, measure}
use g_sierra.Sim.Machine.Exec.Closer.{due_bound, due_le}

-- The time of the next timer, when none is in the past.
abbrev pub at_next : Hw → Hw
at_next h = record h { simu_time = h.next_timer_time }

timer_ahead :
    (stop : ℕ) (i : TimerIndex) (h : Hw)
    → IsTimely stop h
    → i ≢ no_timer
    → h.simu_time ≤ timer_of i h 0
unfolding IsEarliest
timer_ahead stop hwtimer h y known =
    let earliest = y.models.0 in ground (arith, earliest, y.tick_ahead, y.awake_ahead)
timer_ahead stop irqcnt h y known = y.irq_ahead
timer_ahead stop hw_counter h y known = y.counter_ahead
timer_ahead stop no_timer h y known = absurd (known refl)

pub next_ahead : (stop : ℕ) (h : Hw) → IsTimely stop h → IsNext h → h.simu_time ≤ h.next_timer_time
next_ahead stop h y n =
    omega (arith, n.known 0, timer_ahead stop h.next_timer_index h y (known_timer h n))

pub jump_ahead : (h : Hw) → h.simu_time ≤ h.next_timer_time → jump h ≡ at_next h
jump_ahead h le =
    if_true (not (ltb h.next_timer_time h.simu_time)) (at_next h) h (ground (arith, le))

pub at_next-IsTimely : (stop : ℕ) (h : Hw) → IsTimely stop h → IsNext h → IsTimely stop (at_next h)
unfolding IsEarliest
at_next-IsTimely stop h y n =
    let m = y.models in
    record {
      models = (m.0, m.1, m.2, refl, refl);
      tick_ahead = ground (arith, m.0, n.before_timer);
      awake_ahead = ground (arith, m.0, n.before_timer);
      irq_ahead = n.before_irq;
      counter_ahead = n.before_counter;
      tick_moves = y.tick_moves;
      counter_moves = y.counter_moves;
    }

pub measure-at_next :
    (stop : ℕ) (h : Hw)
    → h.simu_time ≤ h.next_timer_time
    → h.next_timer_time < stop
    → measure stop (at_next h) ≤ measure stop h
measure-at_next stop h le lt =
    let now = h.simu_time in
    let next = h.next_timer_time in
    elim (Bool-cases (ltb now next)) [
      | inl later ↦
          let less = ltb→lt now next later in
          omega (
            arith,
            less,
            due_bound next h.timer.hw_timer_tick_timer,
            due_bound next h.timer.hw_timer_awake_timer,
            due_bound next h.counter.hw_counter_timer,
            due_bound next h.irq.irq_ctrl_timer,
          )
      | inr same ↦
          let e : next ≡ now = ground (arith, same, le) in
          omega (
            arith,
            e,
            due_le now next h.timer.hw_timer_tick_timer _ e (inl refl),
            due_le now next h.timer.hw_timer_awake_timer _ e (inl refl),
            due_le now next h.counter.hw_counter_timer _ e (inl refl),
            due_le now next h.irq.irq_ctrl_timer _ e (inl refl),
          )
    ]

-- The time of the timer that was chosen, at its time.
pub timer_of-at_next : (i : TimerIndex) (h : Hw) (d : ℕ) → timer_of i h d ≡ timer_of i (at_next h) d
timer_of-at_next hwtimer h d = refl
timer_of-at_next irqcnt h d = refl
timer_of-at_next hw_counter h d = refl
timer_of-at_next no_timer h d = refl
