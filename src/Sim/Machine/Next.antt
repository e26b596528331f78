-- ===== src/Sim/Machine/Next.antt =====
-- The calls of the software keep the next timer the earliest.
use g_sierra.Common.{
  ℕ, ◌≡◌, refl, sym, ◌∙◌, true, false, not, ◌&&◌, ◌||◌, List, [], ◌∷◌, if_either, ltb, bit, any_bit,
  u64, ◌+◌, arith,
}
use g_sierra.Sim.{
  Hw, TimerModel, IrqCtrl, CounterModel, TimerIndex, hwtimer, irqcnt, hw_counter, no_timer,
  hwm_find_next_timer, hwm_get_time, never,
}
use g_sierra.Sim.Irq.{
  hw_irq_ctrl_clear_all_enabled_irqs, hw_irq_ctrl_clear_all_irqs, hw_irq_ctrl_disable_irq,
  hw_irq_ctrl_clear_irq, hw_irq_ctrl_set_cur_prio, hw_irq_ctrl_prio_set,
  hw_irq_ctrl_irq_raise_prefix, hw_irq_ctrl_set_irq, hw_irq_ctrl_raise_im_from_sw, raise_im_then,
  enable_then, hw_irq_ctrl_enable_irq, hw_irq_ctrl_change_lock,
}
use g_sierra.Sim.Irq.Pending.{unmask}
use g_sierra.Sim.Timer.{
  hwtimer_update_timer, hwtimer_enable, hwtimer_wake_in_time, hwtimer_set_silent_ticks,
  hwtimer_adjust_rtc_offset,
}
use g_sierra.Sim.Counter.{
  hw_counter_set_period, hw_counter_set_target, hw_counter_start, hw_counter_stop,
}
use g_sierra.Sim.Top.{hwm_signal_end_handler}
use g_sierra.Sim.Top.Time.{IsNext, timer_of, hwm_find_next_timer-IsNext}
use g_sierra.Sim.Machine.{
  Call, timer_enable, wake_in_time, adjust_rtc_offset, set_counter_period, set_counter_target,
  set_silent_ticks, start_counter, stop_counter, clear_all, clear_all_enabled, end_signal, set_irq,
  raise_from_sw, enable_irq, disable_irq, clear_irq, set_cur_prio, set_prio, change_lock, run_call,
  run_calls, no_handler,
}

-- Writes to the models that leave their timers alone leave the next one the earliest.
timer_of_same :
    (i : TimerIndex) (h : Hw) (t : TimerModel) (c : IrqCtrl) (k : CounterModel) (d : ℕ)
    → t.hw_timer_timer ≡ h.timer.hw_timer_timer
    → c.irq_ctrl_timer ≡ h.irq.irq_ctrl_timer
    → k.hw_counter_timer ≡ h.counter.hw_counter_timer
    → timer_of i h d ≡ timer_of i (record h { timer = t; irq = c; counter = k }) d
timer_of_same hwtimer h t c k d et ec ek = sym et
timer_of_same irqcnt h t c k d et ec ek = sym ec
timer_of_same hw_counter h t c k d et ec ek = sym ek
timer_of_same no_timer h t c k d et ec ek = refl

IsNext-same :
    (h : Hw) (t : TimerModel) (c : IrqCtrl) (k : CounterModel)
    → t.hw_timer_timer ≡ h.timer.hw_timer_timer
    → c.irq_ctrl_timer ≡ h.irq.irq_ctrl_timer
    → k.hw_counter_timer ≡ h.counter.hw_counter_timer
    → IsNext h
    → IsNext (record h { timer = t; irq = c; counter = k })
IsNext-same h t c k et ec ek n = record {
  known = λ d. n.known d ∙ timer_of_same h.next_timer_index h t c k d et ec ek;
  before_timer = omega (arith, n.before_timer);
  before_irq = omega (arith, n.before_irq);
  before_counter = omega (arith, n.before_counter);
}

-- The controller alone.
IsNext-irq :
    (h : Hw) (c : IrqCtrl)
    → c.irq_ctrl_timer ≡ h.irq.irq_ctrl_timer
    → IsNext h
    → IsNext (record h { irq = c })
IsNext-irq h c e n = IsNext-same h h.timer c h.counter refl e refl n

pub prefix_timer :
    (i : ℕ) (c : IrqCtrl) → (hw_irq_ctrl_irq_raise_prefix i c).irq_ctrl_timer ≡ c.irq_ctrl_timer
unfolding hw_irq_ctrl_irq_raise_prefix
prefix_timer i c = ground arith

raise-IsNext : (i : ℕ) (h : Hw) → IsNext h → IsNext (hw_irq_ctrl_raise_im_from_sw no_handler i h)
unfolding hw_irq_ctrl_raise_im_from_sw raise_im_then
raise-IsNext i h n =
    let c = hw_irq_ctrl_irq_raise_prefix i h.irq in
    let n' = IsNext-irq h c (prefix_timer i h.irq) n in
    if_either IsNext (not c.irqs_locked) (record h { irq = c }) (record h { irq = c }) n' n'

timer_of_signal :
    (i : TimerIndex) (h : Hw) (d : ℕ)
    → timer_of i h d ≡ timer_of i (record h { signaled_end = true }) d
timer_of_signal hwtimer h d = refl
timer_of_signal irqcnt h d = refl
timer_of_signal hw_counter h d = refl
timer_of_signal no_timer h d = refl

pub run_call-IsNext : (call : Call) (h : Hw) → IsNext h → IsNext (run_call call h)
unfolding run_call hwtimer_enable hwtimer_wake_in_time hwtimer_adjust_rtc_offset
    hwtimer_set_silent_ticks hw_counter_set_period hw_counter_set_target hw_counter_start
    hw_counter_stop hw_irq_ctrl_clear_all_irqs hw_irq_ctrl_clear_all_enabled_irqs
    hwm_signal_end_handler hw_irq_ctrl_set_irq hw_irq_ctrl_enable_irq hw_irq_ctrl_disable_irq
    hw_irq_ctrl_clear_irq hw_irq_ctrl_set_cur_prio hw_irq_ctrl_prio_set hw_irq_ctrl_change_lock
    hwm_get_time enable_then
run_call-IsNext (timer_enable period) h n =
    let t = record h.timer { tick_p = period; hw_timer_tick_timer = u64 (h.simu_time + period) } in
    hwm_find_next_timer-IsNext (record h { timer = hwtimer_update_timer t })
run_call-IsNext (wake_in_time time) h n =
    let h' = record h {
      timer = hwtimer_update_timer (record h.timer { hw_timer_awake_timer = time });
    } in
    if_either IsNext (ltb time h.timer.hw_timer_awake_timer) (hwm_find_next_timer h') h
      (hwm_find_next_timer-IsNext h') n
run_call-IsNext (adjust_rtc_offset d) h n =
    IsNext-same h (hwtimer_adjust_rtc_offset d h.timer) h.irq h.counter refl refl refl n
run_call-IsNext (set_silent_ticks k) h n =
    IsNext-same h (hwtimer_set_silent_ticks k h.timer) h.irq h.counter refl refl refl n
run_call-IsNext (set_counter_period p) h n =
    IsNext-same h h.timer h.irq (hw_counter_set_period p h.counter) refl refl refl n
run_call-IsNext (set_counter_target t) h n =
    IsNext-same h h.timer h.irq (hw_counter_set_target t h.counter) refl refl refl n
run_call-IsNext start_counter h n =
    let h' = record h {
      counter = record h.counter {
        counter_running = true;
        hw_counter_timer = u64 (h.simu_time + h.counter.counter_period);
      };
    } in
    if_either IsNext h.counter.counter_running h (hwm_find_next_timer h') n
      (hwm_find_next_timer-IsNext h')
run_call-IsNext stop_counter h n =
    hwm_find_next_timer-IsNext (record h {
      counter = record h.counter { counter_running = false; hw_counter_timer = never };
    })
run_call-IsNext clear_all h n = IsNext-irq h (hw_irq_ctrl_clear_all_irqs h.irq) refl n
run_call-IsNext clear_all_enabled h n =
    IsNext-irq h (hw_irq_ctrl_clear_all_enabled_irqs h.irq) refl n
run_call-IsNext end_signal h n = record {
  known = λ d. n.known d ∙ timer_of_signal h.next_timer_index h d;
  before_timer = n.before_timer;
  before_irq = n.before_irq;
  before_counter = n.before_counter;
}
run_call-IsNext (set_irq i) h n =
    let c = hw_irq_ctrl_irq_raise_prefix i h.irq in
    let h' = record h { irq = record c { irq_ctrl_timer = h.simu_time } } in
    if_either IsNext (not c.irqs_locked || c.lock_ignore) (hwm_find_next_timer h')
      (record h { irq = c }) (hwm_find_next_timer-IsNext h')
      (IsNext-irq h c (prefix_timer i h.irq) n)
run_call-IsNext (raise_from_sw i) h n = raise-IsNext i h n
run_call-IsNext (enable_irq i) h n =
    let h' = record h { irq = unmask i h.irq } in
    let n' = IsNext-irq h (unmask i h.irq) refl n in
    if_either IsNext (bit h.irq.irq_premask i) (hw_irq_ctrl_raise_im_from_sw no_handler i h') h'
      (raise-IsNext i h' n') n'
run_call-IsNext (disable_irq i) h n = IsNext-irq h (hw_irq_ctrl_disable_irq i h.irq) refl n
run_call-IsNext (clear_irq i) h n = IsNext-irq h (hw_irq_ctrl_clear_irq i h.irq) refl n
run_call-IsNext (set_cur_prio p) h n = IsNext-irq h (hw_irq_ctrl_set_cur_prio p h.irq) refl n
run_call-IsNext (set_prio i p) h n = IsNext-irq h (hw_irq_ctrl_prio_set i p h.irq) refl n
run_call-IsNext (change_lock b) h n =
    let c = record h.irq { irqs_locked = b } in
    let n' = IsNext-irq h c refl n in
    if_either IsNext (h.irq.irqs_locked && not b && any_bit h.irq.irq_status) (record h { irq = c })
      (record h { irq = c }) n' n'

pub run_calls-IsNext : (calls : List Call) (h : Hw) → IsNext h → IsNext (run_calls calls h)
unfolding run_calls
run_calls-IsNext [] h n = n
run_calls-IsNext (c ∷ cs) h n = run_calls-IsNext cs (run_call c h) (run_call-IsNext c h n)
