-- ===== src/Sim/Machine/Exec.antt =====
-- `posix_exec_for`: what the loop over the events needs to end.
pub mod Timers
pub mod Counters
pub mod Closer
pub mod Dispatch
pub mod Forward
pub mod Ends
pub mod Boot
use g_sierra.Common.{ℕ, ◌+◌, ◌-◌, ◌*◌, ◌^◌, ◌≤◌, ◌<◌, ◌≡◌, ◌⊎◌, ◌==◌, if◌then◌else◌}
use g_sierra.Sim.{Hw}
use g_sierra.Sim.Machine.Keeps.{Models}

-- A period that moves a timer on, and not around the end of the 64 bits.
abbrev pub Moves : ℕ → ℕ → Type 0
Moves stop period = (0 < period) × (stop + period < 2 ^ 64)

-- The models are sound, no timer is in the past, and the timers that are due before `stop` have a
-- period that moves them on.
pub record IsTimely (stop : ℕ) (h : Hw) : Type 0 where
  pub models : Models h.simu_time h.end_of_time h
  pub tick_ahead : h.simu_time ≤ h.timer.hw_timer_tick_timer
  pub awake_ahead : h.simu_time ≤ h.timer.hw_timer_awake_timer
  pub irq_ahead : h.simu_time ≤ h.irq.irq_ctrl_timer
  pub counter_ahead : h.simu_time ≤ h.counter.hw_counter_timer
  pub tick_moves : h.timer.hw_timer_tick_timer < stop → Moves stop h.timer.tick_p
  pub counter_moves : h.counter.hw_counter_timer < stop → Moves stop h.counter.counter_period

-- A timer that stays or is set to the future.
abbrev pub IsLater : ℕ → ℕ → ℕ → Type 0
IsLater now before after = (after ≡ before) ⊎ (now < after)

-- The software that an interrupt wakes takes no simulated time, sets timers to the future only, with
-- periods that move them on, and leaves the controller's timer alone.
pub record IsPatient (stop : ℕ) (interrupt_raised : Hw → Hw) : Type 0 where
  pub time : (h : Hw) → (interrupt_raised h).simu_time ≡ h.simu_time
  pub timely : (h : Hw) → IsTimely stop h → IsTimely stop (interrupt_raised h)
  pub irq : (h : Hw) → (interrupt_raised h).irq.irq_ctrl_timer ≡ h.irq.irq_ctrl_timer
  pub tick :
      (h : Hw)
      → IsLater h.simu_time h.timer.hw_timer_tick_timer
          (interrupt_raised h).timer.hw_timer_tick_timer
  pub awake :
      (h : Hw)
      → IsLater h.simu_time h.timer.hw_timer_awake_timer
          (interrupt_raised h).timer.hw_timer_awake_timer
  pub counter :
      (h : Hw)
      → IsLater h.simu_time h.counter.hw_counter_timer (interrupt_raised h).counter.hw_counter_timer

-- Whether a timer stands at the present.
abbrev pub due : ℕ → ℕ → ℕ
due now t = if t == now then 1 else 0

-- What an event makes smaller: the time that is left, and at one time the timers that are due. The
-- timers of the models count twice, since they may make the controller's due.
abbrev pub measure : ℕ → Hw → ℕ
measure stop h =
    8 * (stop - h.simu_time)
    + (2
          * (due h.simu_time h.timer.hw_timer_tick_timer
              + due h.simu_time h.timer.hw_timer_awake_timer
              + due h.simu_time h.counter.hw_counter_timer)
        + due h.simu_time h.irq.irq_ctrl_timer)
