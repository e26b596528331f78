-- ===== src/Tests/Fuzz.antt =====
-- The first input of the fuzzer.
use g_sierra.Common.{◌+◌, ◌≡◌, refl, true, false, some, [], ◌∷◌, set_bit, arith}
use g_sierra.Cmdline.{cmd_args_set_defaults}
use g_sierra.Cmdline.Parse.{native_handle_cmd_line, handle_args}
use g_sierra.Sim.Timer.{hwtimer_enable}
use g_sierra.Sim.Top.{Progress}
use g_sierra.Sim.Machine.{hw_at_start, initialised}
use g_sierra.Sim.Machine.Exec.Boot.{started, started_time, started-IsTimely, started-IsNext}
use g_sierra.Sim.Machine.Exec.Ends.{Ends}
use g_sierra.Sim.Start.{posix_init}
use g_sierra.Sim.Fuzz.{Fuzz, init_once, fuzzer_test_one_input}
use g_sierra.Sim.Fuzz.Runs.{fuzzer_test_one_input_lem}
use g_sierra.Tests.Ratio.{naturals}
use g_sierra.Tests.Start.{readers}
use g_sierra.Tests.Exec.{asks, asks-IsPatient}

abbrev unused : Fuzz
unused = record {
  posix_initialized = false;
  posix_fuzz_buf = [];
  posix_fuzz_sz = 0;
  hw = hw_at_start false;
}

-- The start of the CPU asks for a tick of 1000 microseconds.
abbrev used : Fuzz
used = record unused { posix_initialized = true; hw = started false [] 70 90 1000 }

starts : init_once naturals readers false 70 90 (hwtimer_enable 1000) asks 5 3500 unused ≡ some used
unfolding init_once posix_init native_handle_cmd_line handle_args cmd_args_set_defaults initialised
starts = refl

used_time : used.hw.simu_time ≡ 0
used_time = started_time false [] 70 90 1000 (omega arith)

fuzzer_test_one_input_lem_example :
    (r : Fuzz) × (p : Progress) × (fuzzer_test_one_input naturals readers false 70 90
        (hwtimer_enable 1000)
        asks
        5
        3500
        28007
        (1 ∷ 2 ∷ [])
        unused
      ≡ some (r, p))
    × (r.posix_initialized ≡ true)
    × (r.posix_fuzz_buf ≡ 1 ∷ 2 ∷ [])
    × (r.posix_fuzz_sz ≡ 2)
    × (r.hw.irq.irq_premask ≡ set_bit used.hw.irq.irq_premask 5)
    × Ends (used.hw.simu_time + 3500) p
fuzzer_test_one_input_lem_example =
    fuzzer_test_one_input_lem naturals readers false 70 90 (hwtimer_enable 1000) asks 5 3500 28007
      (1 ∷ 2 ∷ []) unused used starts (omega arith) (omega (arith, used_time))
      (asks-IsPatient (used.hw.simu_time + 3500))
      (started-IsTimely false [] 70 90 1000 (used.hw.simu_time + 3500) (omega arith)
        (omega (arith, used_time)))
      (started-IsNext false [] 70 90 1000) (omega arith)
