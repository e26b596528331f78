-- ===== src/Sim/Fuzz/Runs.antt =====
-- An input of the fuzzer reaches the software as an interrupt, and the loop over the events ends.
use g_sierra.Common.{
  ℕ, ◌+◌, ◌*◌, ◌^◌, ◌≤◌, ◌<◌, ◌≡◌, refl, ap, Bool, true, some, List, [], ◌∷◌, >>=-eq-some, if_cases,
  ◌>>=◌, length, set_bit, arith,
}
use g_sierra.Sim.{Hw, n_irqs, hwm_find_next_timer, consider_timer}
use g_sierra.Sim.Irq.{hw_irq_ctrl_set_irq, hw_irq_ctrl_irq_raise_prefix}
use g_sierra.Sim.Top.{Progress, posix_exec_for}
use g_sierra.Sim.Top.Time.{IsNext}
use g_sierra.Sim.Machine.{run_call, run_calls, set_irq}
use g_sierra.Sim.Machine.Keeps.{set_irq-Models}
use g_sierra.Sim.Machine.Next.{run_calls-IsNext}
use g_sierra.Sim.Machine.Exec.{IsTimely, IsPatient}
use g_sierra.Sim.Machine.Exec.Timers.{set_irq-Raised}
use g_sierra.Sim.Machine.Exec.Ends.{Ends, exec_until_stop}
use g_sierra.Sim.Ratio.{Floats, Clocked}
use g_sierra.Sim.Start.{Readers, posix_init}
use g_sierra.Sim.Fuzz.{Fuzz, init_once, with_input, fuzzer_test_one_input}

set_irq-IsTimely : (stop i : ℕ) (h : Hw) → IsTimely stop h → IsTimely stop (hw_irq_ctrl_set_irq i h)
set_irq-IsTimely stop i h y =
    let r = set_irq-Raised i h in
    let m = set_irq-Models i h y.models in
    record {
      models = (m.0, m.1, m.2, refl, refl);
      tick_ahead = rw (r.time, r.timer) y.tick_ahead;
      awake_ahead = rw (r.time, r.timer) y.awake_ahead;
      irq_ahead = omega (arith, r.time, r.irq, y.irq_ahead);
      counter_ahead = rw (r.time, r.counter) y.counter_ahead;
      tick_moves = rw r.timer y.tick_moves;
      counter_moves = rw r.counter y.counter_moves;
    }

set_irq-IsNext : (i : ℕ) (h : Hw) → IsNext h → IsNext (hw_irq_ctrl_set_irq i h)
unfolding run_calls run_call
set_irq-IsNext i h n = run_calls-IsNext (set_irq i ∷ []) h n

set_irq_marks :
    (i : ℕ) (h : Hw)
    → i < n_irqs
    → (hw_irq_ctrl_set_irq i h).irq.irq_premask ≡ set_bit h.irq.irq_premask i
unfolding hw_irq_ctrl_set_irq hw_irq_ctrl_irq_raise_prefix hwm_find_next_timer consider_timer
set_irq_marks i h lt = ground (arith, lt)

module _ (f : Floats) (readers : Readers f.Double) (slowdown : Bool) (host_us realhosttime : ℕ)
    (boot interrupt_raised : Hw → Hw) (fuzz_irq us : ℕ) where
  init_once-initialized :
      (s s' : Fuzz)
      → init_once f readers slowdown host_us realhosttime boot interrupt_raised fuzz_irq us s
        ≡ some s'
      → s'.posix_initialized ≡ true
  unfolding init_once
  init_once-initialized s s' e =
      if_cases (λ o. o ≡ some s' → s'.posix_initialized ≡ true) s.posix_initialized (some s)
        (posix_init f readers slowdown [] host_us realhosttime
          >>= (λ (c : Clocked f). some (record s { posix_initialized = true; hw = boot c.hw })))
        (λ on e. let same : s' ≡ s = cc in rw same on)
        (λ off e.
          let (c, started, made) =
            >>=-eq-some (posix_init f readers slowdown [] host_us realhosttime)
              (λ (c : Clocked f). some (record s { posix_initialized = true; hw = boot c.hw })) s'
              e in
          let same : s' ≡ record s { posix_initialized = true; hw = boot c.hw } = cc in
          rw same refl)
        e

  -- If the board is initialised, by this call or one before, and then as `posix_exec_for` needs it,
  -- `LLVMFuzzerTestOneInput` ends, with fuel for `8 * us + 7` rounds: the input is in the two
  -- variables and its interrupt is raised when the loop over the events starts, and the loop runs for
  -- at least `us` microseconds or to the end of the process.
  pub fuzzer_test_one_input_lem :
      (fuel : ℕ) (input : List ℕ) (s s' : Fuzz)
      → init_once f readers slowdown host_us realhosttime boot interrupt_raised fuzz_irq us s
        ≡ some s'
      → fuzz_irq < n_irqs
      → s'.hw.simu_time + us < 2 ^ 64
      → IsPatient (s'.hw.simu_time + us) interrupt_raised
      → IsTimely (s'.hw.simu_time + us) s'.hw
      → IsNext s'.hw
      → 8 * us + 7 ≤ fuel
      → (r : Fuzz) × (p : Progress) × (fuzzer_test_one_input f readers slowdown host_us realhosttime
            boot interrupt_raised fuzz_irq us fuel input s
          ≡ some (r, p))
        × (r.posix_initialized ≡ true)
        × (r.posix_fuzz_buf ≡ input)
        × (r.posix_fuzz_sz ≡ length input)
        × (r.hw.irq.irq_premask ≡ set_bit s'.hw.irq.irq_premask fuzz_irq)
        × Ends (s'.hw.simu_time + us) p
  unfolding fuzzer_test_one_input
  fuzzer_test_one_input_lem fuel input s s' starts lt range patient y n enough =
      let r =
        with_input f readers slowdown host_us realhosttime boot interrupt_raised fuzz_irq us input
          s' in
      let time = (set_irq-Raised fuzz_irq s'.hw).time in
      let timely = set_irq-IsTimely (s'.hw.simu_time + us) fuzz_irq s'.hw y in
      (
        r,
        posix_exec_for interrupt_raised fuel us r.hw,
        rw (fuzzer_test_one_input, starts) refl,
        init_once-initialized s s' starts,
        refl,
        refl,
        set_irq_marks fuzz_irq s'.hw lt,
        exec_until_stop interrupt_raised fuel us (s'.hw.simu_time + us) r.hw (ap (λ t. t + us) time)
            range patient timely (set_irq-IsNext fuzz_irq s'.hw n) enough,
      )
