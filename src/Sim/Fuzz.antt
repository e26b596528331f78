-- ===== src/Sim/Fuzz.antt =====
-- `LLVMFuzzerTestOneInput` of main.c, which replaces `main` under CONFIG_ARCH_POSIX_LIBFUZZER.
pub mod Runs
use g_sierra.Common.{◌>>=◌, ℕ, Bool, true, Option, none, some, List, [], if◌then◌else◌, length}
use g_sierra.Sim.{Hw}
use g_sierra.Sim.Irq.{hw_irq_ctrl_set_irq}
use g_sierra.Sim.Ratio.{Floats}
use g_sierra.Sim.Start.{Readers, posix_init}
use g_sierra.Sim.Top.{Progress, posix_exec_for}

-- The static variables, and the board.
pub record Fuzz : Type 0 where
  pub posix_initialized : Bool
  pub posix_fuzz_buf : List ℕ
  pub posix_fuzz_sz : ℕ
  pub hw : Hw

-- `boot` is the start of the CPU in `posix_init`; `fuzz_irq` is CONFIG_ARCH_POSIX_FUZZ_IRQ, and `us` the
-- microseconds of CONFIG_ARCH_POSIX_FUZZ_TICKS. The other parameters are those of `posix_init`.
module _ (f : Floats) (readers : Readers f.Double) (slowdown : Bool) (host_us realhosttime : ℕ)
    (boot interrupt_raised : Hw → Hw) (fuzz_irq us : ℕ) where
  -- Nothing when the process exits.
  unfoldable pub init_once : Fuzz → Option Fuzz
  unfolding posix_init
  init_once s = if s.posix_initialized then some s else do
    c ← posix_init f readers slowdown [] host_us realhosttime
    some (record s { posix_initialized = true; hw = boot c.hw })

  abbrev pub with_input : List ℕ → Fuzz → Fuzz
  with_input input s = record s {
    posix_fuzz_buf = input;
    posix_fuzz_sz = length input;
    hw = hw_irq_ctrl_set_irq fuzz_irq s.hw;
  }

  -- The variables when the loop over the events starts, and how it ends, with the given fuel.
  unfoldable pub fuzzer_test_one_input : ℕ → List ℕ → Fuzz → Option (Fuzz × Progress)
  unfolding init_once hw_irq_ctrl_set_irq posix_exec_for
  fuzzer_test_one_input fuel input s = do
    s' ← init_once s
    some (with_input input s', posix_exec_for interrupt_raised fuel us (with_input input s').hw)
