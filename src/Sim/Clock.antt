-- ===== src/Sim/Clock.antt =====
-- native_rtc.c and cpu_wait.c: the clock that the firmware reads, and its busy wait.
pub mod Split
pub mod Wait
pub mod Hold
use g_sierra.Common.{
  ℕ, zero, suc, ◌+◌, ◌-◌, ◌*◌, ◌^◌, ◌/◌, ◌%◌, Bool, ◌&&◌, Option, none, some, ltb, ◌==◌,
  if◌then◌else◌, u32, u64,
}
use g_sierra.Sim.{Hw, TimerModel, hwm_get_time}
use g_sierra.Sim.Timer.{hwtimer_get_simu_rtc_time, hwtimer_adjust_rtc_offset, hwtimer_wake_in_time}

-- The clocks; `unknown` is any other number.
pub data RtcClock : Type 0 where
  rtc_clock_boot rtc_clock_realtime rtc_clock_pseudohostrealtime unknown : RtcClock

pub record Instant : Type 0 where
  pub nsec : ℕ
  pub sec : ℕ

-- `pseudohost` is what `hwtimer_get_pseudohost_rtc_time` reads off the host. Nothing when the process
-- exits.
module _ (pseudohost : Instant) where
  unfoldable pub native_rtc_gettime_us : RtcClock → Hw → Option ℕ
  unfolding hwm_get_time hwtimer_get_simu_rtc_time
  native_rtc_gettime_us rtc_clock_boot h = some (hwm_get_time h)
  native_rtc_gettime_us rtc_clock_realtime h = some (hwtimer_get_simu_rtc_time h)
  native_rtc_gettime_us rtc_clock_pseudohostrealtime h =
      some (u64 (pseudohost.sec * 1000000 + pseudohost.nsec / 1000))
  native_rtc_gettime_us unknown h = none

  abbrev pub split_us : ℕ → Instant
  split_us us = record { nsec = u32 (us % 1000000 * 1000); sec = us / 1000000 }

  unfoldable pub native_rtc_gettime : RtcClock → Hw → Option Instant
  unfolding native_rtc_gettime_us
  native_rtc_gettime rtc_clock_boot h = elim (native_rtc_gettime_us rtc_clock_boot h) [
    | none ↦ none
    | some us ↦ some (split_us us)
  ]
  native_rtc_gettime rtc_clock_realtime h = elim (native_rtc_gettime_us rtc_clock_realtime h) [
    | none ↦ none
    | some us ↦ some (split_us us)
  ]
  native_rtc_gettime rtc_clock_pseudohostrealtime h = some pseudohost
  native_rtc_gettime unknown h = some pseudohost

unfoldable pub native_rtc_offset : ℕ → TimerModel → TimerModel
unfolding hwtimer_adjust_rtc_offset
native_rtc_offset delta_us t = hwtimer_adjust_rtc_offset delta_us t

-- `halt` is `posix_halt_cpu`, which lets the hardware run until the CPU is awake again.
module _ (halt : Hw → Hw) where
  -- The loop, on fuel. Nothing when it has run out.
  unfoldable pub wait_until : ℕ → ℕ → Hw → Option Hw
  unfolding hwm_get_time hwtimer_wake_in_time
  wait_until zero time_end h = if ltb (hwm_get_time h) time_end then none else some h
  wait_until (suc fuel) time_end h =
      let rest = wait_until fuel time_end (halt (hwtimer_wake_in_time time_end h)) in
      if ltb (hwm_get_time h) time_end then rest else some h

  unfoldable pub arch_busy_wait : ℕ → ℕ → Hw → Option Hw
  unfolding wait_until hwm_get_time
  arch_busy_wait fuel usec_to_wait h = wait_until fuel (u64 (hwm_get_time h + usec_to_wait)) h

-- `posix_cpu_hold`: `wait` is `posix_change_cpu_state_and_wait(true)` and `irq_handler` is
-- `posix_irq_handler`. The `int64_t` to_wait is its bit pattern.
module _ (wait irq_handler : Hw → Hw) where
  abbrev pub is_positive : ℕ → Bool
  is_positive to_wait = ltb 0 to_wait && ltb to_wait (2 ^ 63)

  -- The loop, on fuel. Nothing when it has run out.
  unfoldable pub hold : ℕ → ℕ → Hw → Option Hw
  unfolding hwm_get_time hwtimer_wake_in_time
  hold zero to_wait h = if is_positive to_wait then none else some h
  hold (suc fuel) to_wait h =
      let time_start = hwm_get_time h in
      let woken = wait (hwtimer_wake_in_time (u64 (time_start + to_wait)) h) in
      let elapsed = u64 (hwm_get_time woken + 2 ^ 64 - time_start) in
      let rest = hold fuel (u64 (to_wait + 2 ^ 64 - elapsed)) (irq_handler woken) in
      if is_positive to_wait then rest else some h

  unfoldable pub posix_cpu_hold : ℕ → ℕ → Hw → Option Hw
  unfolding hold
  posix_cpu_hold fuel usec_to_waste h = hold fuel usec_to_waste h
