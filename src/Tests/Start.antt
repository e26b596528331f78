-- ===== src/Tests/Start.antt =====
-- The start of the board with options, and natural numbers in the place of the floating-point ones.
use g_sierra.Common.{ℕ, ◌≡◌, refl, false, Option, none, some, List, [], ◌∷◌, codes}
use g_sierra.Common.Int.{pos}
use g_sierra.Cmdline.{
  cmd_read_option_value, cmd_args_set_defaults, same_text, same_text_any_case, match_option,
  cmd_is_option, cmd_is_help_option,
}
use g_sierra.Cmdline.Parse.{
  native_handle_cmd_line, handle_args, cmd_parse_one_arg, find_option, cmd_handle_this_matched_arg,
  store_value,
}
use g_sierra.Sim.{consider_timer, hwm_find_next_timer}
use g_sierra.Sim.Irq.{hw_irq_ctrl_init}
use g_sierra.Sim.Timer.{hwtimer_init, hwtimer_update_timer, hwtimer_set_real_time_mode}
use g_sierra.Sim.Counter.{hw_counter_init}
use g_sierra.Sim.Top.{hwm_init, hwm_set_end_of_time}
use g_sierra.Sim.Machine.{Reach}
use g_sierra.Sim.Ratio.{
  Clocked, hwtimer_set_rt_ratio, cmd_stop_at_found, cmd_realtime_found, cmd_rt_drift_found,
}
use g_sierra.Sim.Start.{Readers, at_start, call_when_found, posix_init}
use g_sierra.Sim.Start.Callbacks.{IsUsable}
use g_sierra.Sim.Start.Ready.{posix_init-Reach}
use g_sierra.Tests.Cmdline.{decimal}
use g_sierra.Tests.Ratio.{naturals, above}

abbrev pub readers : Readers ℕ
readers = record {
  nan = 0;
  strtoul = λ s. decimal s 0;
  strtoull = λ s. decimal s 0;
  strtol = λ s. let (n, rest) = decimal s 0 in (pos n, rest);
  strtoll = λ s. let (n, rest) = decimal s 0 in (pos n, rest);
  strtod = λ s. decimal s 0;
}

abbrev args : List (List ℕ)
args = codes "--rt-drift=4" ∷ codes "--stop_at=2" ∷ codes "--rt" ∷ []

abbrev or_start : Option (Clocked naturals) → Clocked naturals
or_start none = (at_start naturals readers false).program
or_start (some c) = c

abbrev ready : Clocked naturals
ready = or_start (posix_init naturals readers false args 70 90)

inits :
    (posix_init naturals readers false args 70 90 ≡ some ready)
    × (ready.clock_ratio ≡ 5)
    × (ready.hw.end_of_time ≡ 2000000)
    × (ready.hw.timer.boot_time ≡ 70)
unfolding posix_init native_handle_cmd_line handle_args cmd_parse_one_arg find_option
    cmd_handle_this_matched_arg store_value cmd_read_option_value cmd_args_set_defaults
    cmd_is_option cmd_is_help_option match_option same_text same_text_any_case call_when_found
    cmd_stop_at_found cmd_realtime_found cmd_rt_drift_found hwtimer_set_rt_ratio
    hwtimer_set_real_time_mode hwm_set_end_of_time hwm_init hwtimer_init hwtimer_update_timer
    hw_counter_init hw_irq_ctrl_init hwm_find_next_timer consider_timer
inits = (refl, refl, refl, refl)

posix_init-Reach_example : IsUsable naturals ready × Reach ready.hw
posix_init-Reach_example =
    posix_init-Reach naturals false above readers args 70 90 ready refl inits.0
