-- ===== src/Sim/Clock/Hold.antt =====
-- `posix_cpu_hold` spends exactly its time outside of interrupts.
use g_sierra.Common.{ℕ, zero, suc, ◌+◌, ◌-◌, ◌^◌, if◌then◌else◌, ltb, u64}
use g_sierra.Sim.{Hw}
use g_sierra.Sim.Timer.{hwtimer_wake_in_time}

module _ (wait irq_handler : Hw → Hw) where
  abbrev woken : ℕ → Hw → Hw
  woken to_wait h = wait (hwtimer_wake_in_time (u64 (h.simu_time + to_wait)) h)

  -- The time that is left, as the loop computes it.
  abbrev left : ℕ → Hw → ℕ
  left to_wait h = u64 (to_wait + 2 ^ 64 - u64 ((woken to_wait h).simu_time + 2 ^ 64 - h.simu_time))

  -- The time that the interrupts take, which the loop does not count.
  abbrev pub handler_time : ℕ → ℕ → Hw → ℕ
  handler_time zero to_wait h = 0
  handler_time (suc fuel) to_wait h =
      let s = woken to_wait h in
      let rest = handler_time fuel (left to_wait h) (irq_handler s) in
      if ltb 0 to_wait then (irq_handler s).simu_time - s.simu_time + rest else 0
