-- ===== src/Tests/Ratio.antt =====
-- The ratio of the clocks, with natural numbers in the place of the floating-point ones.
use native.Mathlib.Nat.{zero-div}
use g_sierra.Common.{ℕ, ◌+◌, ◌-◌, ◌*◌, ◌/◌, ◌%◌, ◌≡◌, refl, true, false, ltb, leb, u32, u64, arith}
use g_sierra.Common.Int.{ℤ, pos, negsuc}
use g_sierra.Sim.Machine.{hw_at_start}
use g_sierra.Sim.Ratio.{Floats, Clocked, expected_rt, hwtimer_adjust_rt_ratio}
use g_sierra.Sim.Ratio.Continuity.{IsIeee, expected_rt-hwtimer_adjust_rt_ratio}

abbrev pub of_int : ℤ → ℕ
of_int (pos n) = n
of_int (negsuc n) = 0

abbrev pub naturals : Floats
naturals = record {
  Double = ℕ;
  of_int = of_int;
  add = λ a b. a + b;
  sub = λ a b. a - b;
  mul = λ a b. a * b;
  div = λ a b. a / b;
  less = ltb;
  less_or_equal = leb;
  to_u64 = u64;
  to_i64 = u64;
  LongDouble = ℕ;
  long_of_int = of_int;
  widen = λ a. a;
  long_add = λ a b. a + b;
  long_sub = λ a b. a - b;
  long_mul = λ a b. a * b;
  long_div = λ a b. a / b;
  fmodl = λ a b. a % b;
  long_to_u64 = u64;
  long_to_u32 = u32;
}

naturals-IsIeee : IsIeee naturals
naturals-IsIeee = record {
  add_comm = λ a b. omega arith;
  zero_div = λ r positive. zero-div r;
  zero_add = λ n small. omega arith;
  exact = λ n small. omega arith;
}

-- The board at 6000 microseconds, twice as fast as the host since 1000.
abbrev clocked : Clocked naturals
clocked = record {
  clock_ratio = 2;
  stop_at = 0;
  rtc_offset = 0;
  rt_drift = 0;
  rt_ratio = 0;
  hw = record (hw_at_start true) {
    simu_time = 6000;
    timer = record (hw_at_start true).timer { last_radj_stime = 1000; last_radj_rtime = 70 };
  };
}

due : expected_rt naturals 6000 clocked ≡ 2570
unfolding expected_rt
due = refl

expected_rt-hwtimer_adjust_rt_ratio_example :
    expected_rt naturals 6000 (hwtimer_adjust_rt_ratio naturals 3 clocked)
    ≡ expected_rt naturals 6000 clocked
expected_rt-hwtimer_adjust_rt_ratio_example =
    expected_rt-hwtimer_adjust_rt_ratio naturals 3 clocked naturals-IsIeee (omega arith)
      (omega arith) refl (omega (arith, due))

pub above : (d : ℕ) → ltb 0 d ≡ true → leb (d + 1) 0 ≡ false
above d h = ground arith
