-- ===== src/Sim/Top.antt =====
-- hw_models_top.c and `posix_exec_for` of main.c: simulated time and the events.
pub mod Time
use g_sierra.Common.{ℕ, zero, suc, ◌+◌, Bool, true, not, ◌||◌, ltb, if◌then◌else◌, u64}
use g_sierra.Sim.{
  Hw, TimerIndex, hwtimer, irqcnt, hw_counter, no_timer, hwm_get_time, hwm_find_next_timer,
}
use g_sierra.Sim.Irq.{hw_irq_ctrl_init, hw_irq_ctrl_timer_triggered}
use g_sierra.Sim.Timer.{hwtimer_init, hwtimer_timer_reached}
use g_sierra.Sim.Counter.{hw_counter_init, hw_counter_triggered}

-- The simulation goes on, or the process exits: with 0, by the signal or at the end of time, or with
-- the message on a corrupted index. A loop of the model may run out of fuel.
pub data Progress : Type 0 where
  running : Hw → Progress
  exited : Hw → Progress
  corrupted : Hw → Progress
  out_of_fuel : Hw → Progress

unfoldable pub hwm_signal_end_handler : Hw → Hw
hwm_signal_end_handler h = record h { signaled_end = true }

-- The jump to the next event. A time in the past is reported and changes nothing.
abbrev pub jump : Hw → Hw
jump h =
    if not (ltb h.next_timer_time h.simu_time)
    then record h { simu_time = h.next_timer_time }
    else h

unfoldable pub hwm_sleep_until_next_timer : Hw → Progress
hwm_sleep_until_next_timer h =
    let h' = jump h in
    if h'.signaled_end || ltb h'.end_of_time h'.simu_time then exited h' else running h'

unfoldable pub hwm_set_end_of_time : ℕ → Hw → Hw
hwm_set_end_of_time new_end_of_time h = record h { end_of_time = new_end_of_time }

unfoldable pub hwm_init : ℕ → ℕ → Hw → Hw
unfolding hwtimer_init hw_counter_init hw_irq_ctrl_init hwm_find_next_timer
hwm_init host_us realhosttime h = hwm_find_next_timer (record h {
  timer = hwtimer_init host_us realhosttime h.timer;
  counter = hw_counter_init h.counter;
  irq = hw_irq_ctrl_init h.irq;
})

module _ (interrupt_raised : Hw → Hw) where
  -- The `switch`.
  unfoldable pub dispatch : TimerIndex → Hw → Progress
  unfolding hwtimer_timer_reached hw_irq_ctrl_timer_triggered hw_counter_triggered
      hwm_find_next_timer
  dispatch hwtimer h = running (hwm_find_next_timer (hwtimer_timer_reached h))
  dispatch irqcnt h = running (hwm_find_next_timer (hw_irq_ctrl_timer_triggered interrupt_raised h))
  dispatch hw_counter h = running (hwm_find_next_timer (hw_counter_triggered h))
  dispatch no_timer h = corrupted h

  abbrev pub then_dispatch : Progress → Progress
  then_dispatch (running h) = dispatch h.next_timer_index h
  then_dispatch (exited h) = exited h
  then_dispatch (corrupted h) = corrupted h
  then_dispatch (out_of_fuel h) = out_of_fuel h

  unfoldable pub hwm_one_event : Hw → Progress
  unfolding hwm_sleep_until_next_timer dispatch
  hwm_one_event h = then_dispatch (hwm_sleep_until_next_timer h)

  -- The loop of `posix_exec_for`, on fuel, up to the time `stop`; `p` is the outcome of an event.
  unfoldable pub exec_until : ℕ → ℕ → Progress → Progress
  unfolding hwm_one_event hwm_get_time
  exec_until zero stop (running h) = if ltb (hwm_get_time h) stop then out_of_fuel h else running h
  exec_until (suc fuel) stop (running h) =
      let rest = exec_until fuel stop (hwm_one_event h) in
      if ltb (hwm_get_time h) stop then rest else running h
  exec_until fuel stop (exited h) = exited h
  exec_until fuel stop (corrupted h) = corrupted h
  exec_until fuel stop (out_of_fuel h) = out_of_fuel h

  unfoldable pub posix_exec_for : ℕ → ℕ → Hw → Progress
  unfolding exec_until hwm_one_event hwm_get_time
  posix_exec_for fuel us h = exec_until fuel (u64 (hwm_get_time h + us)) (hwm_one_event h)
