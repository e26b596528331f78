-- ===== src/Sim/Clock/Wait.antt =====
-- The busy wait ends, and not before its time.
use g_sierra.Common.{ℕ, ◌≡◌, arith}
use g_sierra.Sim.{Hw, hwm_find_next_timer, consider_timer}
use g_sierra.Sim.Timer.{hwtimer_wake_in_time}

pub wake_time : (time : ℕ) (h : Hw) → (hwtimer_wake_in_time time h).simu_time ≡ h.simu_time
unfolding hwtimer_wake_in_time hwm_find_next_timer consider_timer
wake_time time h = ground arith
