-- ===== src/Sim/Machine/Keeps.antt =====
-- What every operation of the models keeps, apart from the choice of the next timer.
use g_sierra.Common.{
  ℕ, zero, suc, ◌+◌, ◌≡◌, refl, ◌∙◌, ap, ap₂, length, true, false, not, if_cases, ◌||◌, ◌==◌,
  if◌then◌else◌, if_either, ltb, u64,
}
use g_sierra.Common.Int.{ℤ, pos, negsuc}
use g_sierra.Sim.{
  Hw, TimerModel, IrqCtrl, CounterModel, TimerIndex, hwtimer, irqcnt, hw_counter, consider_timer,
  hwm_find_next_timer, hwm_get_time, never, timer_tick_irq, phony_hard_irq, counter_event_irq,
}
use g_sierra.Sim.Irq.{
  hw_irq_ctrl_irq_raise_prefix, hw_irq_ctrl_set_irq, irq_raising_from_hw_now,
  hw_irq_ctrl_timer_triggered,
}
use g_sierra.Sim.Irq.Pending.{within, IsConsistent, hw_irq_ctrl_irq_raise_prefix-IsConsistent}
use g_sierra.Sim.Timer.{
  hwtimer_update_timer, count_tick, ticked, awake, hwtimer_tick_timer_reached,
  hwtimer_awake_timer_reached, hwtimer_timer_reached,
}
use g_sierra.Sim.Timer.Earliest.{IsEarliest}
use g_sierra.Sim.Counter.{count_up, hw_counter_triggered}

-- A counter that does not run has no timer.
abbrev pub IsQuiet : CounterModel → Type 0
IsQuiet c = c.counter_running ≡ false → c.hw_counter_timer ≡ never

-- The models are sound, at this time and with this end of time.
abbrev pub Models : ℕ → ℕ → Hw → Type 0
Models now end h =
    IsEarliest h.timer
    × IsConsistent h.irq
    × IsQuiet h.counter
    × (h.simu_time ≡ now)
    × (h.end_of_time ≡ end)

pub update-IsEarliest : (t : TimerModel) → IsEarliest (hwtimer_update_timer t)
unfolding hwtimer_update_timer IsEarliest
update-IsEarliest t = refl

-- The controller's timer and its lock have no part in it.
pub same_sets :
    (c c' : IrqCtrl)
    → c'.irq_premask ≡ c.irq_premask
    → c'.irq_status ≡ c.irq_status
    → IsConsistent c
    → IsConsistent c'
same_sets c c' p s k = record { size = ap length p ∙ k.size; marked = ap₂ within s p ∙ k.marked }

module _ {now end : ℕ} where
  consider-Models :
      (i : TimerIndex) (t : ℕ) (h : Hw) → Models now end h → Models now end (consider_timer i t h)
  unfolding consider_timer
  consider-Models i t h m =
      if_either (Models now end) (ltb t h.next_timer_time)
        (record h { next_timer_index = i; next_timer_time = t }) h m m

  pub find-Models : (h : Hw) → Models now end h → Models now end (hwm_find_next_timer h)
  unfolding hwm_find_next_timer
  find-Models h m =
      let h₁ = record h { next_timer_index = hwtimer; next_timer_time = h.timer.hw_timer_timer } in
      consider-Models hw_counter h.counter.hw_counter_timer
        (consider_timer irqcnt h.irq.irq_ctrl_timer h₁)
        (consider-Models irqcnt h.irq.irq_ctrl_timer h₁ m)

  -- A new timer model or controller that is sound.
  pub with_timer :
      (t : TimerModel) (h : Hw)
      → IsEarliest t
      → Models now end h
      → Models now end (record h { timer = t })
  with_timer t h e (e₀, c, q, s, n) = (e, c, q, s, n)

  pub with_irq :
      (c : IrqCtrl) (h : Hw)
      → IsConsistent c
      → Models now end h
      → Models now end (record h { irq = c })
  with_irq c h k (e, k₀, q, s, n) = (e, k, q, s, n)

  pub with_counter :
      (c : CounterModel) (h : Hw)
      → IsQuiet c
      → Models now end h
      → Models now end (record h { counter = c })
  with_counter c h q (e, k, q₀, s, n) = (e, k, q, s, n)

  pub set_irq-Models :
      (irq : ℕ) (h : Hw) → Models now end h → Models now end (hw_irq_ctrl_set_irq irq h)
  unfolding hw_irq_ctrl_set_irq hwm_get_time
  set_irq-Models irq h m =
      let c = hw_irq_ctrl_irq_raise_prefix irq h.irq in
      let c-IsConsistent = hw_irq_ctrl_irq_raise_prefix-IsConsistent irq h.irq m.1 in
      let timed = record c { irq_ctrl_timer = h.simu_time } in
      if_either (Models now end) (not c.irqs_locked || c.lock_ignore)
        (hwm_find_next_timer (record h { irq = timed })) (record h { irq = c })
        (find-Models (record h { irq = timed })
          (with_irq timed h (same_sets c timed refl refl c-IsConsistent) m))
        (with_irq c h c-IsConsistent m)

  count_tick-Models : (n : ℤ) (h : Hw) → Models now end h → Models now end (count_tick n h)
  unfolding count_tick IsEarliest
  count_tick-Models (pos zero) h m = set_irq-Models timer_tick_irq h m
  count_tick-Models (pos (suc n)) h m = with_timer (record h.timer { silent_ticks = pos n }) h m.0 m
  count_tick-Models (negsuc n) h m = set_irq-Models timer_tick_irq h m

  tick-Models : (h : Hw) → Models now end h → Models now end (hwtimer_tick_timer_reached h)
  unfolding hwtimer_tick_timer_reached
  tick-Models h m = count_tick-Models h.timer.silent_ticks (ticked h) (
      with_timer (ticked h).timer h
        (update-IsEarliest (record h.timer {
          hw_timer_tick_timer = u64 (h.timer.hw_timer_tick_timer + h.timer.tick_p);
        }))
        m)

  awake-Models : (h : Hw) → Models now end h → Models now end (hwtimer_awake_timer_reached h)
  unfolding hwtimer_awake_timer_reached
  awake-Models h m = set_irq-Models phony_hard_irq (awake h) (
      with_timer (awake h).timer h
        (update-IsEarliest (record h.timer { hw_timer_awake_timer = never })) m)

  pub timer_reached-Models : (h : Hw) → Models now end h → Models now end (hwtimer_timer_reached h)
  unfolding hwtimer_timer_reached
  timer_reached-Models h m =
      let is_awake = h.timer.hw_timer_awake_timer == h.timer.hw_timer_timer in
      let s = if is_awake then hwtimer_awake_timer_reached h else h in
      let s-Models =
        if_either (Models now end) is_awake (hwtimer_awake_timer_reached h) h (awake-Models h m)
          m in
      if_either (Models now end) (s.timer.hw_timer_tick_timer == h.timer.hw_timer_timer)
        (hwtimer_tick_timer_reached s) s (tick-Models s s-Models) s-Models

  count_up-Models :
      (h : Hw) → h.counter.counter_running ≡ true → Models now end h → Models now end (count_up h)
  unfolding count_up hwm_get_time
  count_up-Models h r m =
      let c = record h.counter {
        hw_counter_timer = u64 (h.simu_time + h.counter.counter_period);
        counter_value = u64 (h.counter.counter_value + 1);
      } in
      let h' = record h { counter = c } in
      let h'-Models = with_counter c h (λ stopped. cc) m in
      if_either (Models now end) (c.counter_value == c.counter_target)
        (hw_irq_ctrl_set_irq counter_event_irq h') h'
        (set_irq-Models counter_event_irq h' h'-Models) h'-Models

  pub counter_triggered-Models :
      (h : Hw) → Models now end h → Models now end (hw_counter_triggered h)
  unfolding hw_counter_triggered
  counter_triggered-Models h m =
      let quiet = record h.counter { hw_counter_timer = never } in
      if_cases (Models now end) h.counter.counter_running (count_up h)
        (record h { counter = quiet }) (λ runs. count_up-Models h runs m)
        (λ stopped. with_counter quiet h (λ e. refl) m)

  pub irq_triggered-Models :
      (interrupt_raised : Hw → Hw)
      → ((s : Hw) → Models now end s → Models now end (interrupt_raised s))
      → (h : Hw) → Models now end h
      → Models now end (hw_irq_ctrl_timer_triggered interrupt_raised h)
  unfolding hw_irq_ctrl_timer_triggered irq_raising_from_hw_now
  irq_triggered-Models interrupt_raised keeps h m =
      let c₁ = record h.irq { irq_ctrl_timer = never } in
      let c₂ = record c₁ { lock_ignore = false } in
      if_either (Models now end) (not h.irq.irqs_locked || h.irq.lock_ignore)
        (interrupt_raised (record h { irq = c₂ })) (record h { irq = c₁ })
        (keeps (record h { irq = c₂ }) (with_irq c₂ h (same_sets h.irq c₂ refl refl m.1) m))
        (with_irq c₁ h (same_sets h.irq c₁ refl refl m.1) m)
