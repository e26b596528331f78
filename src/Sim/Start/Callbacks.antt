-- ===== src/Sim/Start/Callbacks.antt =====
-- Every callback of the options leaves the board ready to be initialised.
use g_sierra.Common.{
  ℕ, zero, suc, ◌≡◌, refl, sym, ◌∙◌, ap, Bool, true, false, not, Option, none, some, List, [], ◌∷◌,
  ◌++◌, if_cases, if_either, if◌then◌else◌, get_or, All,
}
use g_sierra.Common.Int.{pos, negsuc}
use g_sierra.Sim.{Hw}
use g_sierra.Sim.Machine.{
  Setting, end_of_time, rtc_offset, real_time, rtc_reset, apply_setting, apply_settings,
  hw_at_start,
}
use g_sierra.Sim.Ratio.{
  Floats, Clocked, hwtimer_set_rt_ratio, cmd_stop_at_found, cmd_realtime_found,
  cmd_no_realtime_found, cmd_rtcoffset_found, cmd_rt_drift_found, cmd_rt_ratio_found,
  cmd_rtcreset_found,
}
use g_sierra.Sim.Start.{Readers, callbacks}

true_of_not : (b : Bool) → not b ≡ false → b ≡ true
true_of_not true h = refl
true_of_not false h = cc

-- A ratio of the clocks that is not zero and not below.
abbrev pub IsUsable : (f : Floats) → Clocked f → Type 0
IsUsable f c = f.less_or_equal c.clock_ratio (f.of_int (pos 0)) ≡ false

-- The models as the settings of a command line leave them.
abbrev pub IsSettled : Bool → Hw → Type 0
IsSettled slowdown h = (xs : List Setting) × (h ≡ apply_settings xs (hw_at_start slowdown))

apply_settings-append :
    (xs : List Setting) (x : Setting) (h : Hw)
    → apply_settings (xs ++ x ∷ []) h ≡ apply_setting x (apply_settings xs h)
apply_settings-append [] x h = refl
apply_settings-append (y ∷ ys) x h = apply_settings-append ys x (apply_setting y h)

IsSettled-setting :
    (slowdown : Bool) (x : Setting) (h : Hw)
    → IsSettled slowdown h
    → IsSettled slowdown (apply_setting x h)
IsSettled-setting slowdown x h (xs, e) =
    (xs ++ x ∷ [], ap (apply_setting x) e ∙ sym (apply_settings-append xs x (hw_at_start slowdown)))

pub get_or-All {ℓ κ} :
    {A : Type ℓ} (P : A → Type κ) (xs : List A) (i : ℕ) (d : A) → All P xs → P d → P (get_or xs i d)
get_or-All P [] i d h p = p
get_or-All P (x ∷ xs) zero d h p = h.0
get_or-All P (x ∷ xs) (suc i) d h p = get_or-All P xs i d h.1 p

module _ (f : Floats) (slowdown : Bool) where
  abbrev pub IsReady : Clocked f → Type 0
  IsReady c = IsUsable f c × IsSettled slowdown c.hw

  -- A callback that does not exit leaves the board ready.
  abbrev pub Readies : (Clocked f → Option (Clocked f)) → Type 0
  Readies g = (c c' : Clocked f) → IsReady c → g c ≡ some c' → IsReady c'

  pub is_ready : (c c' : Clocked f) → IsReady c → some c ≡ some c' → IsReady c'
  is_ready c c' r e = let same : c' ≡ c = cc in rw same r

  set_ready :
      (x : Setting) (c c' : Clocked f)
      → IsReady c
      → some (record c { hw = apply_setting x c.hw }) ≡ some c'
      → IsReady c'
  set_ready x c c' (u, h) e =
      is_ready (record c { hw = apply_setting x c.hw }) c' (u, IsSettled-setting slowdown x c.hw h)
        e

  realtime-Readies :
      (b : Bool) → Readies (if b then cmd_realtime_found f else cmd_no_realtime_found f)
  unfolding cmd_realtime_found cmd_no_realtime_found apply_setting
  realtime-Readies true c c' r e = set_ready (real_time true) c c' r e
  realtime-Readies false c c' r e = set_ready (real_time false) c c' r e

  rtc-Readies : (b : Bool) → Readies (if b then cmd_rtcoffset_found f else cmd_rtcreset_found f)
  unfolding cmd_rtcoffset_found cmd_rtcreset_found apply_setting
  rtc-Readies true c c' r e =
      set_ready (rtc_offset (f.to_i64 (f.mul c.rtc_offset (f.of_int (pos 1000000))))) c c' r e
  rtc-Readies false c c' r e = set_ready rtc_reset c c' r e

  stop_at-Readies : Readies (cmd_stop_at_found f)
  unfolding cmd_stop_at_found apply_setting
  stop_at-Readies c c' r =
      let end = f.to_u64 (f.mul c.stop_at (f.of_int (pos 1000000))) in
      if_either (λ (o : Option (Clocked f)). o ≡ some c' → IsReady c')
        (f.less c.stop_at (f.of_int (pos 0))) none
        (some (record c { hw = apply_setting (end_of_time end) c.hw })) (λ e. cc)
        (λ e. set_ready (end_of_time end) c c' r e)

  rt_ratio-Readies : Readies (cmd_rt_ratio_found f)
  unfolding cmd_rt_ratio_found hwtimer_set_rt_ratio
  rt_ratio-Readies c c' r =
      let c₁ = record c { clock_ratio = c.rt_ratio } in
      if_cases (λ (o : Option (Clocked f)). o ≡ some c' → IsReady c')
        (f.less_or_equal c.rt_ratio (f.of_int (pos 0))) none (some c₁) (λ bad e. cc)
        (λ good e. is_ready c₁ c' (good, r.1) e)

  module _
      (above : (d : f.Double)
        → f.less (f.of_int (negsuc 0)) d ≡ true
        → f.less_or_equal (f.add d (f.of_int (pos 1))) (f.of_int (pos 0)) ≡ false) where
    rt_drift-Readies : Readies (cmd_rt_drift_found f)
    unfolding cmd_rt_drift_found hwtimer_set_rt_ratio
    rt_drift-Readies c c' r =
        let ratio = f.add c.rt_drift (f.of_int (pos 1)) in
        let c₁ = record c { rt_ratio = ratio; clock_ratio = ratio } in
        let above_1 = f.less (f.of_int (negsuc 0)) c.rt_drift in
        if_cases (λ (o : Option (Clocked f)). o ≡ some c' → IsReady c') (not above_1) none (some c₁)
          (λ bad e. cc)
          (λ good e. is_ready c₁ c' (above c.rt_drift (true_of_not above_1 good), r.1) e)

    module _ (readers : Readers f.Double) where
      pub callbacks-Readies : All Readies (callbacks f readers)
      callbacks-Readies =
          let colour : Readies (λ c. some c) = λ c c' r e. is_ready c c' r e in
          (
            colour,
            (
              colour,
              (
                colour,
                (
                  realtime-Readies true,
                  (
                    realtime-Readies false,
                    (
                      rt_drift-Readies,
                      (
                        rt_ratio-Readies,
                        (rtc-Readies true, (rtc-Readies false, (stop_at-Readies, tt))),
                      ),
                    ),
                  ),
                ),
              ),
            ),
          )
