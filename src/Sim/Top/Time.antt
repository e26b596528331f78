-- ===== src/Sim/Top/Time.antt =====
-- Time goes forward, from event to event, and no further than its end.
use g_sierra.Common.{
  ℕ, zero, suc, ◌≤◌, ◌<◌, ◌≡◌, ◌≢◌, refl, ◌∙◌, ap, sym, ◌⊎◌, inl, inr, Bool, true, false, not, ◌||◌,
  Bool-cases, ltb, ◌==◌, if◌then◌else◌, if_either, arith,
}
use g_sierra.Common.Int.{ℤ, pos, negsuc}
use g_sierra.Sim.{
  Hw, TimerIndex, hwtimer, irqcnt, hw_counter, no_timer, consider_timer, hwm_find_next_timer, never,
  timer_tick_irq, phony_hard_irq, counter_event_irq,
}
use g_sierra.Sim.Irq.{hw_irq_ctrl_set_irq, irq_raising_from_hw_now, hw_irq_ctrl_timer_triggered}
use g_sierra.Sim.Timer.{
  count_tick, hwtimer_tick_timer_reached, hwtimer_awake_timer_reached, hwtimer_timer_reached,
  ticked, awake,
}
use g_sierra.Sim.Counter.{count_up, hw_counter_triggered}
use g_sierra.Sim.Top.{
  Progress, running, exited, jump, hwm_sleep_until_next_timer, dispatch, then_dispatch,
  hwm_one_event,
}

-- The time of a timer.
abbrev pub timer_of : TimerIndex → Hw → ℕ → ℕ
timer_of hwtimer h d = h.timer.hw_timer_timer
timer_of irqcnt h d = h.irq.irq_ctrl_timer
timer_of hw_counter h d = h.counter.hw_counter_timer
timer_of no_timer h d = d

-- The next timer is one of the three and stands at its time, and none is earlier.
pub record IsNext (h : Hw) : Type 0 where
  pub known : (d : ℕ) → h.next_timer_time ≡ timer_of h.next_timer_index h d
  pub before_timer : h.next_timer_time ≤ h.timer.hw_timer_timer
  pub before_irq : h.next_timer_time ≤ h.irq.irq_ctrl_timer
  pub before_counter : h.next_timer_time ≤ h.counter.hw_counter_timer

pub hwm_find_next_timer-IsNext : (h : Hw) → IsNext (hwm_find_next_timer h)
unfolding hwm_find_next_timer consider_timer
hwm_find_next_timer-IsNext h = record {
  known = λ d. ground arith;
  before_timer = ground arith;
  before_irq = ground arith;
  before_counter = ground arith;
}

pub find_time : (h : Hw) → (hwm_find_next_timer h).simu_time ≡ h.simu_time
unfolding hwm_find_next_timer consider_timer
find_time h = ground arith

pub set_irq_time : (irq : ℕ) (h : Hw) → (hw_irq_ctrl_set_irq irq h).simu_time ≡ h.simu_time
unfolding hw_irq_ctrl_set_irq hwm_find_next_timer consider_timer
set_irq_time irq h = ground arith

count_tick_time : (n : ℤ) (h : Hw) → (count_tick n h).simu_time ≡ h.simu_time
unfolding count_tick
count_tick_time (pos zero) h = set_irq_time timer_tick_irq h
count_tick_time (pos (suc n)) h = refl
count_tick_time (negsuc n) h = set_irq_time timer_tick_irq h

tick_time : (h : Hw) → (hwtimer_tick_timer_reached h).simu_time ≡ h.simu_time
unfolding hwtimer_tick_timer_reached
tick_time h = count_tick_time h.timer.silent_ticks (ticked h)

awake_time : (h : Hw) → (hwtimer_awake_timer_reached h).simu_time ≡ h.simu_time
unfolding hwtimer_awake_timer_reached
awake_time h = set_irq_time phony_hard_irq (awake h)

timer_time : (h : Hw) → (hwtimer_timer_reached h).simu_time ≡ h.simu_time
unfolding hwtimer_timer_reached
timer_time h =
    let is_awake = h.timer.hw_timer_awake_timer == h.timer.hw_timer_timer in
    let s = if is_awake then hwtimer_awake_timer_reached h else h in
    let time_s : s.simu_time ≡ h.simu_time =
      if_either (λ (s : Hw). s.simu_time ≡ h.simu_time) is_awake (hwtimer_awake_timer_reached h) h
        (awake_time h) refl in
    if_either (λ (s : Hw). s.simu_time ≡ h.simu_time)
      (s.timer.hw_timer_tick_timer == h.timer.hw_timer_timer) (hwtimer_tick_timer_reached s) s
      (tick_time s ∙ time_s) time_s

counter_time : (h : Hw) → (hw_counter_triggered h).simu_time ≡ h.simu_time
unfolding hw_counter_triggered count_up
counter_time h = ground (arith, set_irq_time counter_event_irq)

-- The later of two times.
abbrev pub later : ℕ → ℕ → ℕ
later a b = if ltb a b then b else a

-- How an event ends. The time is that of the next timer, unless that has passed.
pub data Outcome (h : Hw) : Progress → Type 0 where
  goes_on :
      (h' : Hw)
      → h.signaled_end ≡ false
      → h'.simu_time ≤ h.end_of_time
      → h'.simu_time ≡ later h.simu_time h.next_timer_time
      → IsNext h'
      → Outcome h (running h')
  stops :
      (h' : Hw)
      → (h.signaled_end ≡ true) ⊎ (h.end_of_time < h'.simu_time)
      → h'.simu_time ≡ later h.simu_time h.next_timer_time
      → Outcome h (exited h')

jump_time :
    (h : Hw)
    → ((jump h).simu_time ≡ later h.simu_time h.next_timer_time)
      × ((jump h).end_of_time ≡ h.end_of_time)
      × ((jump h).signaled_end ≡ h.signaled_end)
      × ((jump h).next_timer_index ≡ h.next_timer_index)
jump_time h = (ground arith, ground arith, ground arith, ground arith)

module _ (interrupt_raised : Hw → Hw)
    (no_time : (h : Hw) → (interrupt_raised h).simu_time ≡ h.simu_time) where
  irq_time : (h : Hw) → (hw_irq_ctrl_timer_triggered interrupt_raised h).simu_time ≡ h.simu_time
  unfolding hw_irq_ctrl_timer_triggered irq_raising_from_hw_now
  irq_time h =
      let h₁ = record h { irq = record h.irq { irq_ctrl_timer = never } } in
      let h₂ = record h₁ { irq = record h₁.irq { lock_ignore = false } } in
      if_either (λ (s : Hw). s.simu_time ≡ h.simu_time) (not h.irq.irqs_locked || h.irq.lock_ignore)
        (interrupt_raised h₂) h₁ (no_time h₂) refl

  -- What an event leaves, when a timer was chosen.
  Left : Hw → Progress → Type 0
  Left h p = (h' : Hw) × (p ≡ running h') × (h'.simu_time ≡ h.simu_time) × IsNext h'

  left : (h s : Hw) → s.simu_time ≡ h.simu_time → Left h (running (hwm_find_next_timer s))
  unfolding Left
  left h s e = (hwm_find_next_timer s, refl, find_time s ∙ e, hwm_find_next_timer-IsNext s)

  dispatch_left : (i : TimerIndex) (h : Hw) → i ≢ no_timer → Left h (dispatch interrupt_raised i h)
  unfolding dispatch
  dispatch_left hwtimer h known = left h (hwtimer_timer_reached h) (timer_time h)
  dispatch_left irqcnt h known =
      left h (hw_irq_ctrl_timer_triggered interrupt_raised h) (irq_time h)
  dispatch_left hw_counter h known = left h (hw_counter_triggered h) (counter_time h)
  dispatch_left no_timer h known = absurd (known refl)

  abbrev over : Hw → Bool
  over h = (jump h).signaled_end || ltb (jump h).end_of_time (jump h).simu_time

  event_over : (h : Hw) → over h ≡ true → hwm_one_event interrupt_raised h ≡ exited (jump h)
  unfolding hwm_one_event hwm_sleep_until_next_timer
  event_over h e =
      ap (λ b. then_dispatch interrupt_raised (if b then exited (jump h) else running (jump h))) e

  event_runs :
      (h : Hw)
      → over h ≡ false
      → hwm_one_event interrupt_raised h
        ≡ dispatch interrupt_raised (jump h).next_timer_index (jump h)
  unfolding hwm_one_event hwm_sleep_until_next_timer
  event_runs h e =
      ap (λ b. then_dispatch interrupt_raised (if b then exited (jump h) else running (jump h))) e

  stop_reason :
      (h : Hw) → over h ≡ true → (h.signaled_end ≡ true) ⊎ (h.end_of_time < (jump h).simu_time)
  stop_reason h e = elim (Bool-cases h.signaled_end) [
    | inl s ↦ inl s
    | inr s ↦ inr (ground (arith, jump_time h))
  ]

  from_left : (h : Hw) (p : Progress) → over h ≡ false → Left (jump h) p → Outcome h p
  unfolding Left
  from_left h p e (h', is_running, time, next) = rw is_running (
      goes_on h' (ground (arith, jump_time h)) (ground (arith, jump_time h, time))
        (time ∙ (jump_time h).0) next)

  -- If the software takes no simulated time and a next timer is chosen, an event ends in one of two
  -- ways. It goes on, at the later of the time before and that of the chosen timer, not behind the
  -- end of time, and with a next timer chosen that is one of the three and the earliest. Or the
  -- process exits at that time, by the signal or because the end of time has passed.
  pub hwm_one_event_lem :
      (h : Hw) → h.next_timer_index ≢ no_timer → Outcome h (hwm_one_event interrupt_raised h)
  hwm_one_event_lem h known = elim (Bool-cases (over h)) [
    | inl e ↦ rw (event_over h e) (stops (jump h) (stop_reason h e) (jump_time h).0)
    | inr e ↦ rw (event_runs h e) (
        from_left h _ e (
          dispatch_left (jump h).next_timer_index (jump h)
            (λ none. known (sym (jump_time h).3 ∙ none))))
  ]
