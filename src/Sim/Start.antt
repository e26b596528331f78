-- ===== src/Sim/Start.antt =====
-- `posix_init` of main.c: the command line is read, its callbacks set up the timer, and the models are
-- initialised. The tasks of the kernel around it and the start of the CPU are not part of it.
pub mod Callbacks
pub mod Ready
use g_sierra.Common.{◌>>=◌, ℕ, Bool, Option, none, some, List, [], ◌∷◌, get_elem?, get_or, set}
use g_sierra.Common.Int.{ℤ, pos}
use g_sierra.Cmdline.{Libc, Value, double_value, Settings, ArgsStruct}
use g_sierra.Cmdline.Parse.{CmdLine, accepted, help, rejected, native_handle_cmd_line}
use g_sierra.Cmdline.Options.{all_options}
use g_sierra.Sim.Top.{hwm_init}
use g_sierra.Sim.Machine.{hw_at_start}
use g_sierra.Sim.Ratio.{
  Floats, Clocked, cmd_stop_at_found, cmd_realtime_found, cmd_no_realtime_found,
  cmd_rtcoffset_found, cmd_rt_drift_found, cmd_rt_ratio_found, cmd_rtcreset_found,
}

-- The number readers of the C library, over the `double` of the arithmetic.
pub record Readers (Double : Type 0) : Type 0 where
  pub nan : Double
  pub strtoul : List ℕ → ℕ × List ℕ
  pub strtoull : List ℕ → ℕ × List ℕ
  pub strtol : List ℕ → ℤ × List ℕ
  pub strtoll : List ℕ → ℤ × List ℕ
  pub strtod : List ℕ → Double × List ℕ

module _ (f : Floats) (readers : Readers f.Double) where
  abbrev pub libc : Libc
  libc = record {
    Double = f.Double;
    nan = readers.nan;
    strtoul = readers.strtoul;
    strtoull = readers.strtoull;
    strtol = readers.strtol;
    strtoll = readers.strtoll;
    strtod = readers.strtod;
  }

  abbrev pub State : Type 0
  State = Settings f.Double (Clocked f)

  abbrev from_value : f.Double → Option (Value f.Double) → f.Double
  from_value d (some (double_value v)) = v
  from_value d other = d

  -- The variables `args` are destinations of the options.
  abbrev pub load : State → Clocked f
  load s = record s.program {
    rt_drift = from_value s.program.rt_drift (get_elem? s.store 0);
    rt_ratio = from_value s.program.rt_ratio (get_elem? s.store 1);
    rtc_offset = from_value s.program.rtc_offset (get_elem? s.store 2);
    stop_at = from_value s.program.stop_at (get_elem? s.store 3);
  }

  -- The callbacks under their numbers in the table. Those of the colours change nothing here.
  abbrev pub callbacks : List (Clocked f → Option (Clocked f))
  callbacks =
      (λ c. some c)
      ∷ (λ c. some c)
      ∷ (λ c. some c)
      ∷ cmd_realtime_found f
      ∷ cmd_no_realtime_found f
      ∷ cmd_rt_drift_found f
      ∷ cmd_rt_ratio_found f
      ∷ cmd_rtcoffset_found f
      ∷ cmd_rtcreset_found f
      ∷ cmd_stop_at_found f
      ∷ []

  abbrev pub store_back : State → Clocked f → State
  store_back s c = record { store = set s.store 1 (double_value c.rt_ratio); program = c }

  unfoldable pub call_when_found : ℕ → List ℕ → ℕ → State → Option State
  unfolding cmd_realtime_found cmd_no_realtime_found cmd_rt_drift_found cmd_rt_ratio_found
      cmd_rtcoffset_found cmd_rtcreset_found cmd_stop_at_found
  call_when_found callback argv offset s = do
    c ← get_or callbacks callback (λ d. some d) (load s)
    some (store_back s c)

  -- The static values, with a ratio of 1.
  abbrev pub at_start : Bool → State
  at_start slowdown =
      let zero_ = f.of_int (pos 0) in
      record {
        store =
            double_value zero_ ∷ double_value zero_ ∷ double_value zero_ ∷ double_value zero_ ∷ [];
        program = record {
          clock_ratio = f.of_int (pos 1);
          stop_at = zero_;
          rtc_offset = zero_;
          rt_drift = zero_;
          rt_ratio = zero_;
          hw = hw_at_start slowdown;
        };
      }

  abbrev pub then_init : ℕ → ℕ → CmdLine libc call_when_found → Option (Clocked f)
  then_init host_us realhosttime (accepted rest s) =
      some (record s.program { hw = hwm_init host_us realhosttime s.program.hw })
  then_init host_us realhosttime (help text) = none
  then_init host_us realhosttime (rejected argv) = none

  -- Nothing when the process exits. The times are those of the host.
  unfoldable pub posix_init : Bool → List (List ℕ) → ℕ → ℕ → Option (Clocked f)
  unfolding native_handle_cmd_line hwm_init
  posix_init slowdown args host_us realhosttime = do
    line ← native_handle_cmd_line libc call_when_found all_options args (at_start slowdown)
    then_init host_us realhosttime line
