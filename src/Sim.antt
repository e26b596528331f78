-- ===== src/Sim.antt =====
-- samples/mesh/boards/posix/native_posix: the models of the hardware behind the simulated board. One
-- record holds the static variables of all the models, since they call one another.
pub mod Irq
pub mod Counter
pub mod Timer
pub mod Top
pub mod Handler
pub mod Clock
pub mod Machine
pub mod Ratio
pub mod Start
pub mod Process
pub mod Fuzz
pub mod Signals
use g_sierra.Common.{ℕ, ◌-◌, ◌^◌, Bool, List, ltb, if◌then◌else◌, Bits}
use g_sierra.Common.Int.{ℤ}

-- `NEVER`, the largest `uint64_t`
abbrev pub never : ℕ
never = 2 ^ 64 - 1

abbrev pub n_irqs : ℕ
n_irqs = 32

abbrev pub timer_tick_irq : ℕ
timer_tick_irq = 0

abbrev pub counter_event_irq : ℕ
counter_event_irq = 2

abbrev pub phony_hard_irq : ℕ
phony_hard_irq = 0xffff

-- `next_timer_index`
pub data TimerIndex : Type 0 where
  hwtimer irqcnt hw_counter no_timer : TimerIndex

-- The variables of timer_model.c. `rtc_offset`, an `int64_t`, is its bit pattern.
pub record TimerModel : Type 0 where
  pub hw_timer_timer : ℕ
  pub hw_timer_tick_timer : ℕ
  pub hw_timer_awake_timer : ℕ
  pub tick_p : ℕ
  pub silent_ticks : ℤ
  pub real_time_mode : Bool
  pub reset_rtc : Bool
  pub rtc_offset : ℕ
  pub boot_time : ℕ
  pub last_radj_rtime : ℕ
  pub last_radj_stime : ℕ

-- The variables of irq_ctrl.c.
pub record IrqCtrl : Type 0 where
  pub irq_ctrl_timer : ℕ
  pub irq_status : Bits
  pub irq_premask : Bits
  pub irq_mask : Bits
  pub irqs_locked : Bool
  pub lock_ignore : Bool
  pub irq_prio : List ℕ
  pub currently_running_prio : ℕ

-- The variables of hw_counter.c.
pub record CounterModel : Type 0 where
  pub hw_counter_timer : ℕ
  pub counter_running : Bool
  pub counter_value : ℕ
  pub counter_target : ℕ
  pub counter_period : ℕ

-- The variables of hw_models_top.c, and the three models.
pub record Hw : Type 0 where
  pub simu_time : ℕ
  pub end_of_time : ℕ
  pub next_timer_index : TimerIndex
  pub next_timer_time : ℕ
  pub signaled_end : Bool
  pub timer : TimerModel
  pub irq : IrqCtrl
  pub counter : CounterModel

unfoldable pub hwm_get_time : Hw → ℕ
hwm_get_time h = h.simu_time

-- The body of the loop of `hwm_find_next_timer`, for one entry of `Timer_list`.
unfoldable pub consider_timer : TimerIndex → ℕ → Hw → Hw
consider_timer index time h =
    if ltb time h.next_timer_time
    then record h { next_timer_index = index; next_timer_time = time }
    else h

-- The loop runs through the two entries behind the first.
unfoldable pub hwm_find_next_timer : Hw → Hw
unfolding consider_timer
hwm_find_next_timer h = consider_timer hw_counter h.counter.hw_counter_timer (
    consider_timer irqcnt h.irq.irq_ctrl_timer
      (record h { next_timer_index = hwtimer; next_timer_time = h.timer.hw_timer_timer }))
