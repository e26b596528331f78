-- ===== src/Sim/Machine/Calls.antt =====
-- The calls of the software keep the models sound and the next timer chosen.
use g_sierra.Common.{
  ℕ, ◌+◌, ◌≡◌, refl, true, false, not, ◌&&◌, List, [], ◌∷◌, if_either, ltb, bit, any_bit, u64,
}
use g_sierra.Sim.{Hw, IrqCtrl, hwm_find_next_timer, hwm_get_time, never}
use g_sierra.Sim.Irq.{
  hw_irq_ctrl_clear_all_enabled_irqs, hw_irq_ctrl_clear_all_irqs, hw_irq_ctrl_disable_irq,
  hw_irq_ctrl_clear_irq, hw_irq_ctrl_set_cur_prio, hw_irq_ctrl_prio_set,
  hw_irq_ctrl_irq_raise_prefix, hw_irq_ctrl_raise_im_from_sw, raise_im_then, enable_then,
  hw_irq_ctrl_enable_irq, hw_irq_ctrl_change_lock,
}
use g_sierra.Sim.Irq.Pending.{
  IrqOp, unmask, run_op, run_op-IsConsistent, hw_irq_ctrl_irq_raise_prefix-IsConsistent,
}
use g_sierra.Sim.Timer.{
  hwtimer_update_timer, hwtimer_enable, hwtimer_wake_in_time, hwtimer_set_silent_ticks,
  hwtimer_adjust_rtc_offset,
}
use g_sierra.Sim.Timer.Earliest.{IsEarliest}
use g_sierra.Sim.Counter.{
  hw_counter_set_period, hw_counter_set_target, hw_counter_start, hw_counter_stop,
}
use g_sierra.Sim.Top.{hwm_signal_end_handler}
use g_sierra.Sim.Machine.{
  Call, timer_enable, wake_in_time, adjust_rtc_offset, set_counter_period, set_counter_target,
  set_silent_ticks, start_counter, stop_counter, clear_all, clear_all_enabled, end_signal, set_irq,
  raise_from_sw, enable_irq, disable_irq, clear_irq, set_cur_prio, set_prio, change_lock, run_call,
  run_calls, no_handler,
}
use g_sierra.Sim.Machine.Keeps.{
  Models, update-IsEarliest, same_sets, find-Models, with_timer, with_irq, with_counter,
  set_irq-Models,
}

module _ {now end : ℕ} where
  raise-Models :
      (i : ℕ) (h : Hw)
      → Models now end h
      → Models now end (hw_irq_ctrl_raise_im_from_sw no_handler i h)
  unfolding hw_irq_ctrl_raise_im_from_sw raise_im_then
  raise-Models i h m =
      let c = hw_irq_ctrl_irq_raise_prefix i h.irq in
      let m' = with_irq c h (hw_irq_ctrl_irq_raise_prefix-IsConsistent i h.irq m.1) m in
      if_either (Models now end) (not c.irqs_locked) (record h { irq = c }) (record h { irq = c })
        m' m'

  -- A call that only writes to the controller.
  irq_op-Models :
      (op : IrqOp) (c : IrqCtrl) (h : Hw)
      → (run_op no_handler op h).irq ≡ c
      → Models now end h
      → Models now end (record h { irq = c })
  irq_op-Models op c h e m =
      with_irq c h (rw (← e) (run_op-IsConsistent no_handler (λ s p. p) op h m.1)) m

  run_call-Models : (call : Call) (h : Hw) → Models now end h → Models now end (run_call call h)
  unfolding run_call hwtimer_enable hwtimer_wake_in_time hwtimer_adjust_rtc_offset
      hwtimer_set_silent_ticks hw_counter_set_period hw_counter_set_target hw_counter_start
      hw_counter_stop hwm_signal_end_handler hw_irq_ctrl_enable_irq hw_irq_ctrl_change_lock
      enable_then hwm_get_time IsEarliest
  run_call-Models (timer_enable period) h m =
      let t = record h.timer {
        tick_p = period;
        hw_timer_tick_timer = u64 (h.simu_time + period);
      } in
      find-Models (record h { timer = hwtimer_update_timer t })
        (with_timer (hwtimer_update_timer t) h (update-IsEarliest t) m)
  run_call-Models (wake_in_time time) h m =
      let t = record h.timer { hw_timer_awake_timer = time } in
      if_either (Models now end) (ltb time h.timer.hw_timer_awake_timer)
        (hwm_find_next_timer (record h { timer = hwtimer_update_timer t })) h
        (find-Models (record h { timer = hwtimer_update_timer t })
          (with_timer (hwtimer_update_timer t) h (update-IsEarliest t) m))
        m
  run_call-Models (adjust_rtc_offset d) h m =
      with_timer (hwtimer_adjust_rtc_offset d h.timer) h m.0 m
  run_call-Models (set_silent_ticks n) h m = with_timer (hwtimer_set_silent_ticks n h.timer) h m.0 m
  run_call-Models (set_counter_period p) h m =
      with_counter (hw_counter_set_period p h.counter) h m.2 m
  run_call-Models (set_counter_target t) h m =
      with_counter (hw_counter_set_target t h.counter) h m.2 m
  run_call-Models start_counter h m =
      let c = record h.counter {
        counter_running = true;
        hw_counter_timer = u64 (h.simu_time + h.counter.counter_period);
      } in
      if_either (Models now end) h.counter.counter_running h
        (hwm_find_next_timer (record h { counter = c })) m
        (find-Models (record h { counter = c }) (with_counter c h (λ stopped. cc) m))
  run_call-Models stop_counter h m =
      let c = record h.counter { counter_running = false; hw_counter_timer = never } in
      find-Models (record h { counter = c }) (with_counter c h (λ stopped. refl) m)
  run_call-Models clear_all h m =
      irq_op-Models IrqOp.clear_all (hw_irq_ctrl_clear_all_irqs h.irq) h refl m
  run_call-Models clear_all_enabled h m =
      irq_op-Models IrqOp.clear_all_enabled (hw_irq_ctrl_clear_all_enabled_irqs h.irq) h refl m
  run_call-Models end_signal h m = m
  run_call-Models (set_irq i) h m = set_irq-Models i h m
  run_call-Models (raise_from_sw i) h m = raise-Models i h m
  run_call-Models (enable_irq i) h m =
      let h' = record h { irq = unmask i h.irq } in
      let m' = with_irq (unmask i h.irq) h (same_sets h.irq (unmask i h.irq) refl refl m.1) m in
      if_either (Models now end) (bit h.irq.irq_premask i)
        (hw_irq_ctrl_raise_im_from_sw no_handler i h') h' (raise-Models i h' m') m'
  run_call-Models (disable_irq i) h m =
      irq_op-Models (IrqOp.disable i) (hw_irq_ctrl_disable_irq i h.irq) h refl m
  run_call-Models (clear_irq i) h m =
      irq_op-Models (IrqOp.clear i) (hw_irq_ctrl_clear_irq i h.irq) h refl m
  run_call-Models (set_cur_prio p) h m =
      irq_op-Models (IrqOp.set_cur_prio p) (hw_irq_ctrl_set_cur_prio p h.irq) h refl m
  run_call-Models (set_prio i p) h m =
      irq_op-Models (IrqOp.prio_set i p) (hw_irq_ctrl_prio_set i p h.irq) h refl m
  run_call-Models (change_lock b) h m =
      let c = record h.irq { irqs_locked = b } in
      let m' = with_irq c h (same_sets h.irq c refl refl m.1) m in
      if_either (Models now end) (h.irq.irqs_locked && not b && any_bit h.irq.irq_status)
        (record h { irq = c }) (record h { irq = c }) m' m'

  pub run_calls-Models :
      (calls : List Call) (h : Hw) → Models now end h → Models now end (run_calls calls h)
  unfolding run_calls
  run_calls-Models [] h m = m
  run_calls-Models (c ∷ cs) h m = run_calls-Models cs (run_call c h) (run_call-Models c h m)
