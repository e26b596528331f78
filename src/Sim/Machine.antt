-- ===== src/Sim/Machine.antt =====
-- The whole simulated board, from power-on: the static values, the settings of the command line,
-- `hwm_init`, and then events, between which the software runs until it is idle. The software is any
-- sequence of its calls of the models. Each of them returns: software that ends the process itself, by
-- `posix_exit` or at an interrupt without a handler, is not among these sequences.
pub mod Keeps
pub mod Calls
pub mod Next
pub mod Clock
pub mod Sound
pub mod Exec
use g_sierra.Common.{ℕ, ◌≡◌, Bool, true, false, List, [], ◌∷◌, replicate, no_bits}
use g_sierra.Common.Int.{ℤ, pos}
use g_sierra.Sim.{Hw, TimerModel, IrqCtrl, CounterModel, no_timer, never, n_irqs}
use g_sierra.Sim.Irq.{
  hw_irq_ctrl_set_cur_prio, hw_irq_ctrl_prio_set, hw_irq_ctrl_clear_all_enabled_irqs,
  hw_irq_ctrl_clear_all_irqs, hw_irq_ctrl_disable_irq, hw_irq_ctrl_clear_irq,
  hw_irq_ctrl_irq_raise_prefix, hw_irq_ctrl_set_irq, hw_irq_ctrl_raise_im_from_sw, raise_im_then,
  enable_then, hw_irq_ctrl_enable_irq, hw_irq_ctrl_change_lock,
}
use g_sierra.Sim.Timer.{
  hwtimer_set_real_time_mode, hwtimer_enable, hwtimer_wake_in_time, hwtimer_set_silent_ticks,
  hwtimer_reset_rtc, hwtimer_set_rtc_offset, hwtimer_adjust_rtc_offset,
}
use g_sierra.Sim.Counter.{
  hw_counter_set_period, hw_counter_set_target, hw_counter_start, hw_counter_stop,
}
use g_sierra.Sim.Top.{
  Progress, running, hwm_set_end_of_time, hwm_signal_end_handler, hwm_init, hwm_one_event,
}

-- The values that the static variables start with. Whether the board runs in real time depends on the
-- configuration.
abbrev pub timer_at_start : Bool → TimerModel
timer_at_start slowdown = record {
  hw_timer_timer = 0;
  hw_timer_tick_timer = 0;
  hw_timer_awake_timer = 0;
  tick_p = 0;
  silent_ticks = pos 0;
  real_time_mode = slowdown;
  reset_rtc = false;
  rtc_offset = 0;
  boot_time = 0;
  last_radj_rtime = 0;
  last_radj_stime = 0;
}

abbrev pub irq_at_start : IrqCtrl
irq_at_start = record {
  irq_ctrl_timer = never;
  irq_status = no_bits;
  irq_premask = no_bits;
  irq_mask = no_bits;
  irqs_locked = false;
  lock_ignore = false;
  irq_prio = replicate n_irqs 0;
  currently_running_prio = 256;
}

abbrev pub counter_at_start : CounterModel
counter_at_start = record {
  hw_counter_timer = 0;
  counter_running = false;
  counter_value = 0;
  counter_target = 0;
  counter_period = 0;
}

abbrev pub hw_at_start : Bool → Hw
hw_at_start slowdown = record {
  simu_time = 0;
  end_of_time = never;
  next_timer_index = no_timer;
  next_timer_time = 0;
  signaled_end = false;
  timer = timer_at_start slowdown;
  irq = irq_at_start;
  counter = counter_at_start;
}

-- What the callbacks of the command line call before `hwm_init`.
pub data Setting : Type 0 where
  end_of_time rtc_offset : ℕ → Setting
  real_time : Bool → Setting
  rtc_reset : Setting

unfoldable pub apply_setting : Setting → Hw → Hw
unfolding hwm_set_end_of_time hwtimer_set_rtc_offset hwtimer_set_real_time_mode hwtimer_reset_rtc
apply_setting (end_of_time t) h = hwm_set_end_of_time t h
apply_setting (rtc_offset o) h = record h { timer = hwtimer_set_rtc_offset o h.timer }
apply_setting (real_time b) h = record h { timer = hwtimer_set_real_time_mode b h.timer }
apply_setting rtc_reset h = record h { timer = hwtimer_reset_rtc h.timer }

abbrev pub apply_settings : List Setting → Hw → Hw
apply_settings [] h = h
apply_settings (x ∷ xs) h = apply_settings xs (apply_setting x h)

-- A call of the software, or the signal that ends the process. The interrupt handler that a call
-- starts makes calls of its own, which come behind it.
pub data Call : Type 0 where
  timer_enable wake_in_time adjust_rtc_offset set_counter_period set_counter_target : ℕ → Call
  set_silent_ticks : ℤ → Call
  start_counter stop_counter clear_all clear_all_enabled end_signal : Call
  set_irq raise_from_sw enable_irq disable_irq clear_irq set_cur_prio : ℕ → Call
  set_prio : ℕ → ℕ → Call
  change_lock : Bool → Call

abbrev no_handler : Hw → Hw
no_handler h = h

unfoldable pub run_call : Call → Hw → Hw
unfolding hwtimer_enable hwtimer_wake_in_time hwtimer_adjust_rtc_offset hwtimer_set_silent_ticks
    hw_counter_set_period hw_counter_set_target hw_counter_start hw_counter_stop
    hw_irq_ctrl_clear_all_irqs hw_irq_ctrl_clear_all_enabled_irqs hwm_signal_end_handler
    hw_irq_ctrl_set_irq hw_irq_ctrl_raise_im_from_sw hw_irq_ctrl_enable_irq hw_irq_ctrl_disable_irq
    hw_irq_ctrl_clear_irq hw_irq_ctrl_set_cur_prio hw_irq_ctrl_prio_set hw_irq_ctrl_change_lock
    raise_im_then enable_then
run_call (timer_enable period) h = hwtimer_enable period h
run_call (wake_in_time t) h = hwtimer_wake_in_time t h
run_call (adjust_rtc_offset d) h = record h { timer = hwtimer_adjust_rtc_offset d h.timer }
run_call (set_silent_ticks n) h = record h { timer = hwtimer_set_silent_ticks n h.timer }
run_call (set_counter_period p) h = record h { counter = hw_counter_set_period p h.counter }
run_call (set_counter_target t) h = record h { counter = hw_counter_set_target t h.counter }
run_call start_counter h = hw_counter_start h
run_call stop_counter h = hw_counter_stop h
run_call clear_all h = record h { irq = hw_irq_ctrl_clear_all_irqs h.irq }
run_call clear_all_enabled h = record h { irq = hw_irq_ctrl_clear_all_enabled_irqs h.irq }
run_call end_signal h = hwm_signal_end_handler h
run_call (set_irq i) h = hw_irq_ctrl_set_irq i h
run_call (raise_from_sw i) h = hw_irq_ctrl_raise_im_from_sw no_handler i h
run_call (enable_irq i) h = hw_irq_ctrl_enable_irq no_handler i h
run_call (disable_irq i) h = record h { irq = hw_irq_ctrl_disable_irq i h.irq }
run_call (clear_irq i) h = record h { irq = hw_irq_ctrl_clear_irq i h.irq }
run_call (set_cur_prio p) h = record h { irq = hw_irq_ctrl_set_cur_prio p h.irq }
run_call (set_prio i p) h = record h { irq = hw_irq_ctrl_prio_set i p h.irq }
run_call (change_lock b) h = (hw_irq_ctrl_change_lock no_handler b h).1

unfoldable pub run_calls : List Call → Hw → Hw
unfolding run_call
run_calls [] h = h
run_calls (c ∷ cs) h = run_calls cs (run_call c h)

-- The state after `hwm_init`, before the software starts. The times are those of the host.
unfoldable pub initialised : Bool → List Setting → ℕ → ℕ → Hw
unfolding apply_setting hwm_init
initialised slowdown settings host_us realhosttime =
    hwm_init host_us realhosttime (apply_settings settings (hw_at_start slowdown))

-- The states that the board reaches: after the software has started, and after each event, in which an
-- interrupt may let the software run again.
pub data Reach : Hw → Type 0 where
  started :
      (slowdown : Bool) (settings : List Setting) (host_us realhosttime : ℕ) (calls : List Call)
      → Reach (run_calls calls (initialised slowdown settings host_us realhosttime))
  event :
      (h h' : Hw) (calls : List Call)
      → Reach h
      → hwm_one_event (run_calls calls) h ≡ running h'
      → Reach h'
