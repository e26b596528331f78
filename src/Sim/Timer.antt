-- ===== src/Sim/Timer.antt =====
-- timer_model.c: the system tick and the timer that wakes the CPU. The times of the host are
-- arguments. The ratio of the clocks is in Sim.Ratio, with the time that the host sleeps before a tick
-- in real-time mode; that sleep changes no variable.
pub mod Earliest
pub mod Ticks
use g_sierra.Common.{ℕ, zero, suc, ◌+◌, ◌-◌, Bool, true, not, ltb, ◌==◌, if◌then◌else◌, u64}
use g_sierra.Common.Int.{ℤ, pos, negsuc}
use g_sierra.Sim.{
  Hw, TimerModel, never, timer_tick_irq, phony_hard_irq, hwm_get_time, hwm_find_next_timer,
}
use g_sierra.Sim.Irq.{hw_irq_ctrl_set_irq}

unfoldable pub hwtimer_set_real_time_mode : Bool → TimerModel → TimerModel
hwtimer_set_real_time_mode new_rt t = record t { real_time_mode = new_rt }

-- `MIN`
abbrev pub min : ℕ → ℕ → ℕ
min a b = if ltb a b then a else b

unfoldable pub hwtimer_update_timer : TimerModel → TimerModel
hwtimer_update_timer t = record t {
  hw_timer_timer = min t.hw_timer_tick_timer t.hw_timer_awake_timer;
}

abbrev pub start_clock : ℕ → TimerModel → TimerModel
start_clock host_us t =
    if t.real_time_mode
    then record t { boot_time = host_us; last_radj_rtime = host_us; last_radj_stime = 0 }
    else t

abbrev pub start_rtc : ℕ → TimerModel → TimerModel
start_rtc realhosttime t =
    if not t.reset_rtc then record t { rtc_offset = u64 (t.rtc_offset + realhosttime) } else t

-- `host_us` is the monotonic and `realhosttime` the real time of the host, in microseconds.
unfoldable pub hwtimer_init : ℕ → ℕ → TimerModel → TimerModel
unfolding hwtimer_update_timer
hwtimer_init host_us realhosttime t = start_rtc realhosttime (
    start_clock host_us (
      hwtimer_update_timer (record t {
        silent_ticks = pos 0;
        hw_timer_tick_timer = never;
        hw_timer_awake_timer = never;
      })))

unfoldable pub hwtimer_enable : ℕ → Hw → Hw
unfolding hwm_get_time hwtimer_update_timer hwm_find_next_timer
hwtimer_enable period h = hwm_find_next_timer (record h {
  timer =
      hwtimer_update_timer
        (record h.timer { tick_p = period; hw_timer_tick_timer = u64 (hwm_get_time h + period) });
})

-- The test `silent_ticks > 0` and what follows it.
unfoldable pub count_tick : ℤ → Hw → Hw
unfolding hw_irq_ctrl_set_irq
count_tick (pos zero) h = hw_irq_ctrl_set_irq timer_tick_irq h
count_tick (pos (suc n)) h = record h { timer = record h.timer { silent_ticks = pos n } }
count_tick (negsuc n) h = hw_irq_ctrl_set_irq timer_tick_irq h

abbrev pub ticked : Hw → Hw
ticked h = record h {
  timer =
      hwtimer_update_timer (record h.timer {
        hw_timer_tick_timer = u64 (h.timer.hw_timer_tick_timer + h.timer.tick_p);
      });
}

unfoldable pub hwtimer_tick_timer_reached : Hw → Hw
unfolding hwtimer_update_timer count_tick
hwtimer_tick_timer_reached h = count_tick h.timer.silent_ticks (ticked h)

abbrev pub awake : Hw → Hw
awake h = record h {
  timer = hwtimer_update_timer (record h.timer { hw_timer_awake_timer = never });
}

unfoldable pub hwtimer_awake_timer_reached : Hw → Hw
unfolding hwtimer_update_timer hw_irq_ctrl_set_irq
hwtimer_awake_timer_reached h = hw_irq_ctrl_set_irq phony_hard_irq (awake h)

unfoldable pub hwtimer_timer_reached : Hw → Hw
unfolding hwtimer_awake_timer_reached hwtimer_tick_timer_reached
hwtimer_timer_reached h =
    let woken =
      if h.timer.hw_timer_awake_timer == h.timer.hw_timer_timer
      then hwtimer_awake_timer_reached h
      else h in
    if woken.timer.hw_timer_tick_timer == h.timer.hw_timer_timer
    then hwtimer_tick_timer_reached woken
    else woken

unfoldable pub hwtimer_wake_in_time : ℕ → Hw → Hw
unfolding hwtimer_update_timer hwm_find_next_timer
hwtimer_wake_in_time time h =
    if ltb time h.timer.hw_timer_awake_timer
    then hwm_find_next_timer
        (record h { timer = hwtimer_update_timer (record h.timer { hw_timer_awake_timer = time }) })
    else h

unfoldable pub hwtimer_set_silent_ticks : ℤ → TimerModel → TimerModel
hwtimer_set_silent_ticks sys_ticks t = record t { silent_ticks = sys_ticks }

unfoldable pub hwtimer_get_pending_silent_ticks : TimerModel → ℤ
hwtimer_get_pending_silent_ticks t = t.silent_ticks

unfoldable pub hwtimer_reset_rtc : TimerModel → TimerModel
hwtimer_reset_rtc t = record t { reset_rtc = true }

-- Offsets are 64-bit patterns, in two's complement.
unfoldable pub hwtimer_set_rtc_offset : ℕ → TimerModel → TimerModel
hwtimer_set_rtc_offset offset t = record t { rtc_offset = offset }

unfoldable pub hwtimer_adjust_rtc_offset : ℕ → TimerModel → TimerModel
hwtimer_adjust_rtc_offset offset_delta t = record t {
  rtc_offset = u64 (t.rtc_offset + offset_delta);
}

unfoldable pub hwtimer_get_simu_rtc_time : Hw → ℕ
unfolding hwm_get_time
hwtimer_get_simu_rtc_time h = u64 (hwm_get_time h + h.timer.rtc_offset)
