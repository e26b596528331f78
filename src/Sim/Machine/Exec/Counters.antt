-- ===== src/Sim/Machine/Exec/Counters.antt =====
-- What the counter does to the times of the timers.
use g_sierra.Common.{◌+◌, ◌≡◌, refl, ap, ◌⊎◌, inl, inr, ◌==◌, if_either, u64}
use g_sierra.Sim.{Hw, CounterModel, hwm_get_time, never, counter_event_irq}
use g_sierra.Sim.Irq.{hw_irq_ctrl_set_irq}
use g_sierra.Sim.Counter.{count_up, hw_counter_triggered}
use g_sierra.Sim.Machine.Exec.Timers.{IrqAfter, set_irq-Raised}

-- What the counter does at its time.
pub record CounterReached (h s : Hw) : Type 0 where
  pub timer : s.timer ≡ h.timer
  pub period : s.counter.counter_period ≡ h.counter.counter_period
  pub time : s.simu_time ≡ h.simu_time
  pub irq : IrqAfter h s
  pub counter_after :
      (s.counter.hw_counter_timer ≡ never)
      ⊎ (s.counter.hw_counter_timer ≡ u64 (h.simu_time + h.counter.counter_period))

count_up_lem : (h : Hw) → CounterReached h (count_up h)
unfolding count_up hwm_get_time
count_up_lem h =
    let h' = record h {
      counter = record h.counter {
        hw_counter_timer = u64 (h.simu_time + h.counter.counter_period);
        counter_value = u64 (h.counter.counter_value + 1);
      };
    } in
    let r = set_irq-Raised counter_event_irq h' in
    if_either (CounterReached h) (h'.counter.counter_value == h'.counter.counter_target)
      (hw_irq_ctrl_set_irq counter_event_irq h') h'
      (record {
        timer = r.timer;
        period = ap (λ (k : CounterModel). k.counter_period) r.counter;
        time = r.time;
        irq = r.irq;
        counter_after = inr (ap (λ (k : CounterModel). k.hw_counter_timer) r.counter);
      })
      (record {
        timer = refl;
        period = refl;
        time = refl;
        irq = inl refl;
        counter_after = inr refl;
      })

pub hw_counter_triggered_lem : (h : Hw) → CounterReached h (hw_counter_triggered h)
unfolding hw_counter_triggered
hw_counter_triggered_lem h =
    if_either (CounterReached h) h.counter.counter_running (count_up h)
      (record h { counter = record h.counter { hw_counter_timer = never } }) (count_up_lem h)
      (record {
        timer = refl;
        period = refl;
        time = refl;
        irq = inl refl;
        counter_after = inl refl;
      })
