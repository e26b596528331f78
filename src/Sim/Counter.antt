-- ===== src/Sim/Counter.antt =====
-- hw_counter.c: the counter, which raises an interrupt at a target.
pub mod Target
use g_sierra.Common.{ℕ, ◌+◌, Bool, true, false, ◌==◌, if◌then◌else◌, u64}
use g_sierra.Sim.{Hw, CounterModel, never, counter_event_irq, hwm_get_time, hwm_find_next_timer}
use g_sierra.Sim.Irq.{hw_irq_ctrl_set_irq}

unfoldable pub hw_counter_init : CounterModel → CounterModel
hw_counter_init c = record {
  hw_counter_timer = never;
  counter_target = never;
  counter_value = 0;
  counter_running = false;
  counter_period = never;
}

-- What `hw_counter_triggered` does when the counter runs.
unfoldable pub count_up : Hw → Hw
unfolding hw_irq_ctrl_set_irq hwm_get_time
count_up h =
    let h' = record h {
      counter = record h.counter {
        hw_counter_timer = u64 (hwm_get_time h + h.counter.counter_period);
        counter_value = u64 (h.counter.counter_value + 1);
      };
    } in
    if h'.counter.counter_value == h'.counter.counter_target
    then hw_irq_ctrl_set_irq counter_event_irq h'
    else h'

unfoldable pub hw_counter_triggered : Hw → Hw
unfolding count_up
hw_counter_triggered h =
    if h.counter.counter_running
    then count_up h
    else record h { counter = record h.counter { hw_counter_timer = never } }

unfoldable pub hw_counter_set_period : ℕ → CounterModel → CounterModel
hw_counter_set_period period c = record c { counter_period = period }

unfoldable pub hw_counter_start : Hw → Hw
unfolding hwm_get_time hwm_find_next_timer
hw_counter_start h =
    if h.counter.counter_running
    then h
    else hwm_find_next_timer (record h {
      counter = record h.counter {
        counter_running = true;
        hw_counter_timer = u64 (hwm_get_time h + h.counter.counter_period);
      };
    })

unfoldable pub hw_counter_stop : Hw → Hw
unfolding hwm_find_next_timer
hw_counter_stop h =
    hwm_find_next_timer (record h {
      counter = record h.counter { counter_running = false; hw_counter_timer = never };
    })

unfoldable pub hw_counter_get_value : CounterModel → ℕ
hw_counter_get_value c = c.counter_value

unfoldable pub hw_counter_set_target : ℕ → CounterModel → CounterModel
hw_counter_set_target target c = record c { counter_target = target }
