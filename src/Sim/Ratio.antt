-- ===== src/Sim/Ratio.antt =====
-- timer_model.c: the ratio of the simulated clock to the host's, and the callbacks of the options. The
-- arithmetic of `double` and `long double` is a record.
pub mod Continuity
use g_sierra.Common.{
  ℕ, ◌+◌, ◌-◌, ◌*◌, ◌/◌, ◌%◌, ◌^◌, Bool, true, false, not, Option, none, some, List, [], ◌∷◌, ltb,
  ◌==◌, if◌then◌else◌, u32, u64,
}
use g_sierra.Common.Int.{ℤ, pos, negsuc}
use g_sierra.Sim.{Hw, hwm_get_time}
use g_sierra.Sim.Timer.{hwtimer_set_real_time_mode, hwtimer_set_rtc_offset, hwtimer_reset_rtc}
use g_sierra.Sim.Top.{hwm_set_end_of_time}
use g_sierra.Sim.Clock.{Instant}

-- `of_int` and `long_of_int` convert an integer, `widen` a `double`. The casts to `uint64_t`, to
-- `int64_t` (a bit pattern) and to `uint32_t` are those of the compiler.
pub record Floats : Type 1 where
  pub Double : Type 0
  pub of_int : ℤ → Double
  pub add : Double → Double → Double
  pub sub : Double → Double → Double
  pub mul : Double → Double → Double
  pub div : Double → Double → Double
  pub less : Double → Double → Bool
  pub less_or_equal : Double → Double → Bool
  pub to_u64 : Double → ℕ
  pub to_i64 : Double → ℕ
  pub LongDouble : Type 0
  pub long_of_int : ℤ → LongDouble
  pub widen : Double → LongDouble
  pub long_add : LongDouble → LongDouble → LongDouble
  pub long_sub : LongDouble → LongDouble → LongDouble
  pub long_mul : LongDouble → LongDouble → LongDouble
  pub long_div : LongDouble → LongDouble → LongDouble
  pub fmodl : LongDouble → LongDouble → LongDouble
  pub long_to_u64 : LongDouble → ℕ
  pub long_to_u32 : LongDouble → ℕ

-- An `int64_t` from its bit pattern.
abbrev pub signed : ℕ → ℤ
signed n = if ltb n (2 ^ 63) then pos n else negsuc (2 ^ 64 - 1 - n)

-- The difference of two `uint64_t`.
abbrev pub sub_u64 : ℕ → ℕ → ℕ
sub_u64 a b = u64 (a + 2 ^ 64 - b)

-- What `nanosleep` is asked for.
pub record Timespec : Type 0 where
  pub tv_sec : ℕ
  pub tv_nsec : ℕ

module _ (f : Floats) where
  open f use {
    Double, of_int, add, sub, mul, div, less, less_or_equal, to_u64, to_i64, long_of_int, widen,
    long_add, long_sub, long_mul, long_div, fmodl, long_to_u64, long_to_u32,
  }

  -- `clock_ratio`, the variables `args` of the options, and the models.
  pub record Clocked : Type 0 where
    pub clock_ratio : Double
    pub stop_at : Double
    pub rtc_offset : Double
    pub rt_drift : Double
    pub rt_ratio : Double
    pub hw : Hw

  unfoldable pub hwtimer_set_rt_ratio : Double → Clocked → Clocked
  hwtimer_set_rt_ratio ratio c = record c { clock_ratio = ratio }

  -- The time of the host at which the simulated time `stime` is due.
  unfoldable pub expected_rt : ℕ → Clocked → ℕ
  expected_rt stime c = to_u64 (
      add (div (of_int (pos (sub_u64 stime c.hw.timer.last_radj_stime))) c.clock_ratio)
        (of_int (pos c.hw.timer.last_radj_rtime)))

  abbrev pub sleep_for : ℤ → Option Timespec
  sleep_for (negsuc n) = none
  sleep_for (pos n) =
      let tv_sec = to_i64 (div (of_int (pos n)) (of_int (pos 1000000))) in
      if ltb 0 n
      then some (record {
        tv_sec = tv_sec;
        tv_nsec = to_i64 (
            mul (sub (of_int (pos n)) (mul (of_int (signed tv_sec)) (of_int (pos 1000000))))
              (of_int (pos 1000)));
      })
      else none

  -- The first part of `hwtimer_tick_timer_reached`: how long the host sleeps before the tick, if it does.
  -- `real_time` is the host's time in microseconds.
  unfoldable pub slow_down : ℕ → Clocked → Option Timespec
  unfolding expected_rt
  slow_down real_time c =
      if c.hw.timer.real_time_mode
      then sleep_for (signed (sub_u64 (expected_rt c.hw.timer.hw_timer_tick_timer c) real_time))
      else none

  unfoldable pub hwtimer_adjust_rt_ratio : Double → Clocked → Clocked
  unfolding hwm_get_time
  hwtimer_adjust_rt_ratio ratio_correction c =
      let current_stime = hwm_get_time c.hw in
      let s_diff = signed (sub_u64 current_stime c.hw.timer.last_radj_stime) in
      record c {
        clock_ratio = mul c.clock_ratio ratio_correction;
        hw = record c.hw {
          timer = record c.hw.timer {
            last_radj_rtime =
                to_u64 (
                  add (of_int (pos c.hw.timer.last_radj_rtime))
                    (div (of_int s_diff) c.clock_ratio));
            last_radj_stime = current_stime;
          };
        };
      }

  unfoldable pub native_rtc_adjust_clock : Double → Clocked → Clocked
  unfolding hwtimer_adjust_rt_ratio
  native_rtc_adjust_clock clock_correction c = hwtimer_adjust_rt_ratio clock_correction c

  -- `tv` is the host's clock.
  unfoldable pub hwtimer_get_pseudohost_rtc_time : Timespec → Clocked → Instant
  hwtimer_get_pseudohost_rtc_time tv c =
      let t = c.hw.timer in
      let rt_us = u64 (tv.tv_sec * 1000000 + tv.tv_nsec / 1000) in
      let rt_ns = tv.tv_nsec % 1000 in
      let drt_us = long_sub (long_of_int (pos rt_us)) (long_of_int (pos t.last_radj_rtime)) in
      let drt_ns = long_add (long_mul drt_us (long_of_int (pos 1000))) (long_of_int (pos rt_ns)) in
      let st = long_add (long_mul drt_ns (widen c.clock_ratio)) (
        long_mul (long_of_int (pos (u64 (t.last_radj_stime + t.rtc_offset))))
          (long_of_int (pos 1000))) in
      record {
        nsec = long_to_u32 (fmodl st (long_of_int (pos 1000000000)));
        sec = long_to_u64 (long_div st (long_of_int (pos 1000000000)));
      }

  -- The callbacks, behind the reading of the value into its variable. Nothing when the process exits.
  unfoldable pub cmd_stop_at_found : Clocked → Option Clocked
  unfolding hwm_set_end_of_time
  cmd_stop_at_found c =
      if less c.stop_at (of_int (pos 0))
      then none
      else some (record c {
        hw = hwm_set_end_of_time (to_u64 (mul c.stop_at (of_int (pos 1000000)))) c.hw;
      })

  unfoldable pub cmd_realtime_found : Clocked → Option Clocked
  unfolding hwtimer_set_real_time_mode
  cmd_realtime_found c =
      some (record c { hw = record c.hw { timer = hwtimer_set_real_time_mode true c.hw.timer } })

  unfoldable pub cmd_no_realtime_found : Clocked → Option Clocked
  unfolding hwtimer_set_real_time_mode
  cmd_no_realtime_found c =
      some (record c { hw = record c.hw { timer = hwtimer_set_real_time_mode false c.hw.timer } })

  unfoldable pub cmd_rtcoffset_found : Clocked → Option Clocked
  unfolding hwtimer_set_rtc_offset
  cmd_rtcoffset_found c = some (record c {
    hw = record c.hw {
      timer = hwtimer_set_rtc_offset (to_i64 (mul c.rtc_offset (of_int (pos 1000000)))) c.hw.timer;
    };
  })

  unfoldable pub cmd_rt_drift_found : Clocked → Option Clocked
  unfolding hwtimer_set_rt_ratio
  cmd_rt_drift_found c =
      let ratio = add c.rt_drift (of_int (pos 1)) in
      if not (less (of_int (negsuc 0)) c.rt_drift)
      then none
      else some (hwtimer_set_rt_ratio ratio (record c { rt_ratio = ratio }))

  unfoldable pub cmd_rt_ratio_found : Clocked → Option Clocked
  unfolding hwtimer_set_rt_ratio
  cmd_rt_ratio_found c =
      if less_or_equal c.rt_ratio (of_int (pos 0))
      then none
      else some (hwtimer_set_rt_ratio c.rt_ratio c)

  unfoldable pub cmd_rtcreset_found : Clocked → Option Clocked
  unfolding hwtimer_reset_rtc
  cmd_rtcreset_found c =
      some (record c { hw = record c.hw { timer = hwtimer_reset_rtc c.hw.timer } })
