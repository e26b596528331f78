-- ===== src/Sim/Ratio/Continuity.antt =====
-- Adjusting the speed of the clock makes it no jump.
use g_sierra.Common.{ℕ, ◌^◌, ◌<◌, ◌≤◌, ◌≡◌, ◌∙◌, ap, true, arith}
use g_sierra.Common.Int.{pos}
use g_sierra.Sim.{hwm_get_time}
use g_sierra.Sim.Ratio.{Floats, Clocked, signed, sub_u64, expected_rt, hwtimer_adjust_rt_ratio}

-- What IEEE 754 says of the conversions and of sums and quotients with 0.
pub record IsIeee (f : Floats) : Type 0 where
  pub add_comm : (a b : f.Double) → f.add a b ≡ f.add b a
  pub zero_div :
      (r : f.Double)
      → f.less (f.of_int (pos 0)) r ≡ true
      → f.div (f.of_int (pos 0)) r ≡ f.of_int (pos 0)
  pub zero_add :
      (n : ℕ) → n < 2 ^ 53 → f.add (f.of_int (pos 0)) (f.of_int (pos n)) ≡ f.of_int (pos n)
  pub exact : (n : ℕ) → n < 2 ^ 53 → f.to_u64 (f.of_int (pos n)) ≡ n

elapsed : (a b : ℕ) → b ≤ a → a < 2 ^ 63 → signed (sub_u64 a b) ≡ pos (sub_u64 a b)
elapsed a b le small = ground arith

no_time : (a : ℕ) → a < 2 ^ 63 → sub_u64 a a ≡ 0
no_time a small = omega arith

-- Right after an adjustment no simulated time has gone by.
due_now :
    (f : Floats) (ratio : f.Double) (now due : ℕ)
    → IsIeee f
    → now < 2 ^ 63
    → f.less (f.of_int (pos 0)) ratio ≡ true
    → due < 2 ^ 53
    → f.to_u64 (f.add (f.div (f.of_int (pos (sub_u64 now now))) ratio) (f.of_int (pos due))) ≡ due
due_now f ratio now due ieee small positive fits =
    rw (no_time now small, ieee.zero_div ratio positive, ieee.zero_add due fits)
      (ieee.exact due fits)

-- After an adjustment of the ratio, the current simulated time is due at the same time of the host as
-- before, if it is not behind the last adjustment, the new ratio is above 0, and the due time is a number
-- that a `double` holds exactly.
pub expected_rt-hwtimer_adjust_rt_ratio :
    (f : Floats) (ratio_correction : f.Double) (c : Clocked f)
    → IsIeee f
    → c.hw.timer.last_radj_stime ≤ c.hw.simu_time
    → c.hw.simu_time < 2 ^ 63
    → f.less (f.of_int (pos 0)) (f.mul c.clock_ratio ratio_correction) ≡ true
    → expected_rt f c.hw.simu_time c < 2 ^ 53
    → expected_rt f c.hw.simu_time (hwtimer_adjust_rt_ratio f ratio_correction c)
      ≡ expected_rt f c.hw.simu_time c
unfolding expected_rt hwtimer_adjust_rt_ratio hwm_get_time
expected_rt-hwtimer_adjust_rt_ratio f r c ieee le small positive fits =
    let now = c.hw.simu_time in
    let t = c.hw.timer in
    let due = expected_rt f now c in
    let rtime : f.to_u64 (
          f.add (f.of_int (pos t.last_radj_rtime))
            (f.div (f.of_int (signed (sub_u64 now t.last_radj_stime))) c.clock_ratio))
        ≡ due =
      rw (elapsed now t.last_radj_stime le small)
        (ap f.to_u64 (ieee.add_comm (f.of_int (pos t.last_radj_rtime)) _)) in
    let ratio = f.mul c.clock_ratio r in
    ap
      (λ (rt : ℕ).
        f.to_u64 (f.add (f.div (f.of_int (pos (sub_u64 now now))) ratio) (f.of_int (pos rt))))
      rtime
    ∙ due_now f ratio now due ieee small positive fits
