-- ===== src/Sim/Clock/Split.antt =====
-- The seconds and nanoseconds of the clock are its microseconds.
use g_sierra.Common.{ℕ, ◌+◌, ◌*◌, ◌<◌, ◌≡◌, refl, some, arith}
use g_sierra.Sim.{Hw}
use g_sierra.Sim.Clock.{
  RtcClock, rtc_clock_boot, rtc_clock_realtime, Instant, native_rtc_gettime_us, native_rtc_gettime,
  split_us,
}

-- The clocks that count microseconds of the simulation.
pub data IsSimulated : RtcClock → Type 0 where
  boot : IsSimulated rtc_clock_boot
  realtime : IsSimulated rtc_clock_realtime

split_exact :
    (p : Instant) (us : ℕ)
    → (((split_us p us).sec * 1000000000 + (split_us p us).nsec) ≡ us * 1000)
      × ((split_us p us).nsec < 1000000000)
split_exact p us = omega arith

-- For the clock of the boot and the real-time clock, `native_rtc_gettime` splits just the
-- microseconds that `native_rtc_gettime_us` gives: seconds and nanoseconds together are the same
-- time, and the nanoseconds are less than a second.
pub native_rtc_gettime-eq-native_rtc_gettime_us :
    (pseudohost : Instant) (clock : RtcClock) (h : Hw)
    → IsSimulated clock
    → (us : ℕ) × (t : Instant) × (native_rtc_gettime_us pseudohost clock h ≡ some us)
      × (native_rtc_gettime pseudohost clock h ≡ some t)
      × (t.sec * 1000000000 + t.nsec ≡ us * 1000)
      × (t.nsec < 1000000000)
unfolding native_rtc_gettime native_rtc_gettime_us
native_rtc_gettime-eq-native_rtc_gettime_us p clock h boot =
    (_, split_us p _, refl, refl, (split_exact p _).0, (split_exact p _).1)
native_rtc_gettime-eq-native_rtc_gettime_us p clock h realtime =
    (_, split_us p _, refl, refl, (split_exact p _).0, (split_exact p _).1)
