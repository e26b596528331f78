-- ===== src/Sim/Machine/Clock.antt =====
-- The calls of the software take no simulated time.
use g_sierra.Common.{
  ℕ, ◌≡◌, refl, ◌∙◌, true, false, not, ◌&&◌, List, [], ◌∷◌, if_either, ltb, bit, any_bit, u64, ◌+◌,
}
use g_sierra.Sim.{Hw, hwm_find_next_timer, hwm_get_time, never}
use g_sierra.Sim.Irq.{
  hw_irq_ctrl_clear_all_enabled_irqs, hw_irq_ctrl_clear_all_irqs, hw_irq_ctrl_disable_irq,
  hw_irq_ctrl_clear_irq, hw_irq_ctrl_set_cur_prio, hw_irq_ctrl_prio_set,
  hw_irq_ctrl_irq_raise_prefix, hw_irq_ctrl_set_irq, hw_irq_ctrl_raise_im_from_sw, raise_im_then,
  enable_then, hw_irq_ctrl_enable_irq, hw_irq_ctrl_change_lock,
}
use g_sierra.Sim.Irq.Pending.{unmask}
use g_sierra.Sim.Timer.{
  hwtimer_update_timer, hwtimer_enable, hwtimer_wake_in_time, hwtimer_set_silent_ticks,
  hwtimer_adjust_rtc_offset,
}
use g_sierra.Sim.Counter.{
  hw_counter_set_period, hw_counter_set_target, hw_counter_start, hw_counter_stop,
}
use g_sierra.Sim.Top.{hwm_signal_end_handler}
use g_sierra.Sim.Top.Time.{find_time, set_irq_time}
use g_sierra.Sim.Machine.{
  Call, timer_enable, wake_in_time, adjust_rtc_offset, set_counter_period, set_counter_target,
  set_silent_ticks, start_counter, stop_counter, clear_all, clear_all_enabled, end_signal, set_irq,
  raise_from_sw, enable_irq, disable_irq, clear_irq, set_cur_prio, set_prio, change_lock, run_call,
  run_calls, no_handler,
}

raise_time :
    (i : ℕ) (h : Hw) → (hw_irq_ctrl_raise_im_from_sw no_handler i h).simu_time ≡ h.simu_time
unfolding hw_irq_ctrl_raise_im_from_sw raise_im_then
raise_time i h =
    let h' = record h { irq = hw_irq_ctrl_irq_raise_prefix i h.irq } in
    if_either (λ (s : Hw). s.simu_time ≡ h.simu_time) (not h'.irq.irqs_locked) h' h' refl refl

run_call_time : (call : Call) (h : Hw) → (run_call call h).simu_time ≡ h.simu_time
unfolding run_call hwtimer_enable hwtimer_wake_in_time hwtimer_adjust_rtc_offset
    hwtimer_set_silent_ticks hw_counter_set_period hw_counter_set_target hw_counter_start
    hw_counter_stop hw_irq_ctrl_clear_all_irqs hw_irq_ctrl_clear_all_enabled_irqs
    hwm_signal_end_handler hw_irq_ctrl_set_irq hw_irq_ctrl_enable_irq hw_irq_ctrl_disable_irq
    hw_irq_ctrl_clear_irq hw_irq_ctrl_set_cur_prio hw_irq_ctrl_prio_set hw_irq_ctrl_change_lock
    hwm_get_time enable_then
run_call_time (timer_enable period) h =
    let t = record h.timer { tick_p = period; hw_timer_tick_timer = u64 (h.simu_time + period) } in
    find_time (record h { timer = hwtimer_update_timer t })
run_call_time (wake_in_time time) h =
    let h' = record h {
      timer = hwtimer_update_timer (record h.timer { hw_timer_awake_timer = time });
    } in
    if_either (λ (s : Hw). s.simu_time ≡ h.simu_time) (ltb time h.timer.hw_timer_awake_timer)
      (hwm_find_next_timer h') h (find_time h') refl
run_call_time (adjust_rtc_offset d) h = refl
run_call_time (set_silent_ticks k) h = refl
run_call_time (set_counter_period p) h = refl
run_call_time (set_counter_target t) h = refl
run_call_time start_counter h =
    let h' = record h {
      counter = record h.counter {
        counter_running = true;
        hw_counter_timer = u64 (h.simu_time + h.counter.counter_period);
      };
    } in
    if_either (λ (s : Hw). s.simu_time ≡ h.simu_time) h.counter.counter_running h
      (hwm_find_next_timer h') refl (find_time h')
run_call_time stop_counter h =
    find_time (record h {
      counter = record h.counter { counter_running = false; hw_counter_timer = never };
    })
run_call_time clear_all h = refl
run_call_time clear_all_enabled h = refl
run_call_time end_signal h = refl
run_call_time (set_irq i) h = set_irq_time i h
run_call_time (raise_from_sw i) h = raise_time i h
run_call_time (enable_irq i) h =
    let h' = record h { irq = unmask i h.irq } in
    if_either (λ (s : Hw). s.simu_time ≡ h.simu_time) (bit h.irq.irq_premask i)
      (hw_irq_ctrl_raise_im_from_sw no_handler i h') h' (raise_time i h') refl
run_call_time (disable_irq i) h = refl
run_call_time (clear_irq i) h = refl
run_call_time (set_cur_prio p) h = refl
run_call_time (set_prio i p) h = refl
run_call_time (change_lock b) h =
    let h' = record h { irq = record h.irq { irqs_locked = b } } in
    if_either (λ (s : Hw). s.simu_time ≡ h.simu_time)
      (h.irq.irqs_locked && not b && any_bit h.irq.irq_status) h' h' refl refl

pub run_calls_time : (calls : List Call) (h : Hw) → (run_calls calls h).simu_time ≡ h.simu_time
unfolding run_calls
run_calls_time [] h = refl
run_calls_time (c ∷ cs) h = run_calls_time cs (run_call c h) ∙ run_call_time c h
