-- ===== src/Tests/Machine.antt =====
-- The simulated board from power-on, at fixed inputs.
use g_sierra.Common.{◌≡◌, refl, true, false, List, [], ◌∷◌, bit}
use g_sierra.Sim.{Hw, consider_timer, hwm_find_next_timer, hwm_get_time}
use g_sierra.Sim.Irq.{
  hw_irq_ctrl_init, hw_irq_ctrl_enable_irq, enable_then, hw_irq_ctrl_set_irq,
  hw_irq_ctrl_irq_raise_prefix,
}
use g_sierra.Sim.Timer.{
  hwtimer_init, hwtimer_update_timer, hwtimer_enable, hwtimer_timer_reached,
  hwtimer_tick_timer_reached, count_tick,
}
use g_sierra.Sim.Counter.{hw_counter_init}
use g_sierra.Sim.Top.{
  Progress, running, exited, corrupted, out_of_fuel, hwm_init, hwm_set_end_of_time, hwm_one_event,
  hwm_sleep_until_next_timer, dispatch,
}
use g_sierra.Sim.Top.Time.{Outcome}
use g_sierra.Sim.Machine.{
  Setting, Call, apply_setting, run_call, run_calls, initialised, Reach, started, event,
  timer_enable, enable_irq, end_of_time,
}
use g_sierra.Sim.Machine.Sound.{IsSound, Reach-IsSound, Reach-hwm_one_event}

-- The kernel's start: a tick of 1000 microseconds, and its interrupt.
abbrev calls : List Call
calls = enable_irq 0 ∷ timer_enable 1000 ∷ []

abbrev settings : List Setting
settings = end_of_time 5000 ∷ []

abbrev booted : Hw
booted = run_calls calls (initialised false settings 70 90)

booted-Reach : Reach booted
booted-Reach = started false settings 70 90 calls

abbrev state_of : Progress → Hw
state_of (running h) = h
state_of (exited h) = h
state_of (corrupted h) = h
state_of (out_of_fuel h) = h

abbrev ticked : Hw
ticked = state_of (hwm_one_event (run_calls []) booted)

-- The first event is the tick, which marks its interrupt.
ticks :
    (hwm_one_event (run_calls []) booted ≡ running ticked)
    × (ticked.simu_time ≡ 1000)
    × (bit ticked.irq.irq_status 0 ≡ true)
unfolding run_calls run_call initialised apply_setting hwm_set_end_of_time hwm_init hwtimer_init
    hw_counter_init hw_irq_ctrl_init hwtimer_update_timer hwm_find_next_timer consider_timer
    hwm_get_time hwtimer_enable hw_irq_ctrl_enable_irq hwm_one_event hwm_sleep_until_next_timer
    dispatch hwtimer_timer_reached hwtimer_tick_timer_reached count_tick hw_irq_ctrl_set_irq
    hw_irq_ctrl_irq_raise_prefix enable_then
ticks = (refl, refl, refl)

Reach-IsSound_example : IsSound ticked
Reach-IsSound_example = Reach-IsSound (event booted ticked [] booted-Reach ticks.0)

Reach-hwm_one_event_example : Outcome ticked (hwm_one_event (run_calls []) ticked)
Reach-hwm_one_event_example =
    Reach-hwm_one_event ticked [] (event booted ticked [] booted-Reach ticks.0)
