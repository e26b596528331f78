-- ===== src/Sim/Timer/Earliest.antt =====
-- `hw_timer_timer` is kept the earlier of the tick and the timer that wakes the CPU.
use g_sierra.Common.{
  ℕ, zero, suc, ◌≡◌, refl, Bool, List, [], ◌∷◌, ◌==◌, if◌then◌else◌, if_either, u64, ◌+◌, arith,
}
use g_sierra.Common.Int.{ℤ, pos, negsuc}
use g_sierra.Sim.{
  Hw, TimerModel, consider_timer, hwm_get_time, hwm_find_next_timer, timer_tick_irq, phony_hard_irq,
}
use g_sierra.Sim.Irq.{hw_irq_ctrl_irq_raise_prefix, hw_irq_ctrl_set_irq}
use g_sierra.Sim.Timer.{
  hwtimer_set_real_time_mode, min, hwtimer_update_timer, hwtimer_init, hwtimer_enable, count_tick,
  ticked, awake, hwtimer_tick_timer_reached, hwtimer_awake_timer_reached, hwtimer_timer_reached,
  hwtimer_wake_in_time, hwtimer_set_silent_ticks, hwtimer_reset_rtc, hwtimer_set_rtc_offset,
  hwtimer_adjust_rtc_offset,
}

-- The timer of the model is the earlier of its two.
unfoldable pub IsEarliest : TimerModel → Type 0
IsEarliest t = t.hw_timer_timer ≡ min t.hw_timer_tick_timer t.hw_timer_awake_timer

-- The search for the next timer and the interrupt controller leave the timer model alone.
pub timer-hwm_find_next_timer : (h : Hw) → (hwm_find_next_timer h).timer ≡ h.timer
unfolding hwm_find_next_timer consider_timer
timer-hwm_find_next_timer h = ground arith

pub timer-hw_irq_ctrl_set_irq : (irq : ℕ) (h : Hw) → (hw_irq_ctrl_set_irq irq h).timer ≡ h.timer
unfolding hw_irq_ctrl_set_irq hwm_get_time
timer-hw_irq_ctrl_set_irq irq h =
    if_either (λ (s : Hw). s.timer ≡ h.timer) _ _ _
      (timer-hwm_find_next_timer (record h {
        irq = record (hw_irq_ctrl_irq_raise_prefix irq h.irq) { irq_ctrl_timer = h.simu_time };
      }))
      refl

pub data TimerOp : Type 0 where
  set_real_time_mode : Bool → TimerOp
  init : ℕ → ℕ → TimerOp
  enable wake_in_time set_rtc_offset adjust_rtc_offset : ℕ → TimerOp
  set_silent_ticks : ℤ → TimerOp
  reset timer_reached : TimerOp

abbrev pub on_timer : (TimerModel → TimerModel) → Hw → Hw
on_timer f h = record h { timer = f h.timer }

abbrev pub run_op : TimerOp → Hw → Hw
run_op (set_real_time_mode b) h = on_timer (hwtimer_set_real_time_mode b) h
run_op (init host rtc) h = on_timer (hwtimer_init host rtc) h
run_op (enable period) h = hwtimer_enable period h
run_op (wake_in_time time) h = hwtimer_wake_in_time time h
run_op (set_rtc_offset o) h = on_timer (hwtimer_set_rtc_offset o) h
run_op (adjust_rtc_offset o) h = on_timer (hwtimer_adjust_rtc_offset o) h
run_op (set_silent_ticks n) h = on_timer (hwtimer_set_silent_ticks n) h
run_op reset h = on_timer hwtimer_reset_rtc h
run_op timer_reached h = hwtimer_timer_reached h

abbrev pub run_ops : List TimerOp → Hw → Hw
run_ops [] h = h
run_ops (op ∷ ops) h = run_ops ops (run_op op h)

IsEarliest-same : {t t' : TimerModel} → t' ≡ t → IsEarliest t → IsEarliest t'
IsEarliest-same e p = rw e p

pub IsEarliest-init : (host rtc : ℕ) (t : TimerModel) → IsEarliest (hwtimer_init host rtc t)
unfolding IsEarliest hwtimer_init hwtimer_update_timer
IsEarliest-init host rtc t = ground arith

count_tick-IsEarliest : (n : ℤ) (h : Hw) → IsEarliest h.timer → IsEarliest (count_tick n h).timer
unfolding count_tick IsEarliest
count_tick-IsEarliest (pos zero) h p =
    IsEarliest-same (timer-hw_irq_ctrl_set_irq timer_tick_irq h) p
count_tick-IsEarliest (pos (suc n)) h p = p
count_tick-IsEarliest (negsuc n) h p =
    IsEarliest-same (timer-hw_irq_ctrl_set_irq timer_tick_irq h) p

tick-IsEarliest : (h : Hw) → IsEarliest (hwtimer_tick_timer_reached h).timer
unfolding hwtimer_tick_timer_reached hwtimer_update_timer IsEarliest
tick-IsEarliest h = count_tick-IsEarliest h.timer.silent_ticks (ticked h) refl

awake-IsEarliest : (h : Hw) → IsEarliest (hwtimer_awake_timer_reached h).timer
unfolding hwtimer_awake_timer_reached hwtimer_update_timer IsEarliest
awake-IsEarliest h = IsEarliest-same (timer-hw_irq_ctrl_set_irq phony_hard_irq (awake h)) refl

pub run_op-IsEarliest :
    (op : TimerOp) (h : Hw) → IsEarliest h.timer → IsEarliest (run_op op h).timer
unfolding IsEarliest hwtimer_set_real_time_mode hwtimer_enable hwtimer_wake_in_time
    hwtimer_timer_reached hwtimer_set_rtc_offset hwtimer_adjust_rtc_offset hwtimer_set_silent_ticks
    hwtimer_reset_rtc hwtimer_update_timer hwm_get_time
run_op-IsEarliest (set_real_time_mode b) h p = p
run_op-IsEarliest (init host rtc) h p = IsEarliest-init host rtc h.timer
run_op-IsEarliest (enable period) h p =
    IsEarliest-same
      (timer-hwm_find_next_timer (
        on_timer
          (λ t.
            hwtimer_update_timer
              (record t { tick_p = period; hw_timer_tick_timer = u64 (h.simu_time + period) }))
          h))
      refl
run_op-IsEarliest (wake_in_time time) h p =
    if_either (λ (s : Hw). IsEarliest s.timer) _ _ _
      (IsEarliest-same
        (timer-hwm_find_next_timer
          (on_timer (λ t. hwtimer_update_timer (record t { hw_timer_awake_timer = time })) h))
        refl)
      p
run_op-IsEarliest (set_rtc_offset o) h p = p
run_op-IsEarliest (adjust_rtc_offset o) h p = p
run_op-IsEarliest (set_silent_ticks n) h p = p
run_op-IsEarliest reset h p = p
run_op-IsEarliest timer_reached h p =
    let is_awake = h.timer.hw_timer_awake_timer == h.timer.hw_timer_timer in
    let s = if is_awake then hwtimer_awake_timer_reached h else h in
    if_either (λ (s : Hw). IsEarliest s.timer)
      (s.timer.hw_timer_tick_timer == h.timer.hw_timer_timer) (hwtimer_tick_timer_reached s) s
      (tick-IsEarliest s)
      (if_either (λ (s : Hw). IsEarliest s.timer) is_awake (hwtimer_awake_timer_reached h) h
        (awake-IsEarliest h) p)

-- After every sequence of operations on the timer model, its timer is the earlier of the next tick
-- and the time to wake the CPU.
pub run_ops-IsEarliest :
    (ops : List TimerOp) (h : Hw) → IsEarliest h.timer → IsEarliest (run_ops ops h).timer
run_ops-IsEarliest [] h p = p
run_ops-IsEarliest (op ∷ ops) h p = run_ops-IsEarliest ops (run_op op h) (run_op-IsEarliest op h p)
