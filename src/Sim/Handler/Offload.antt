-- ===== src/Sim/Handler/Offload.antt =====
-- irq_handler.c, the part under CONFIG_IRQ_OFFLOAD: a routine that runs as an interrupt.
pub mod Alone
pub mod Steps
pub mod Runs
use g_sierra.Common.{ℕ, zero, suc, Bool, false, Option, none, some, ◌==◌, if◌then◌else◌}
use g_sierra.Sim.{Hw}
use g_sierra.Sim.Irq.{hw_irq_ctrl_disable_irq, raise_im_then, enable_then}
use g_sierra.Sim.Handler.{
  Cpu, Software, Handled, returned, unregistered, outside, out_of_fuel,
  posix_irq_handler_im_from_sw, posix_isr_declare, posix_irq_disable,
}

abbrev pub offload_sw_irq : ℕ
offload_sw_irq = 1

-- Its argument is not used.
unfoldable pub offload_sw_irq_handler : Software → ℕ → Cpu → Cpu
offload_sw_irq_handler sw a c = sw.run_normal c.off_routine c.off_parameter c

-- The software, in which the number `handler` stands for `offload_sw_irq_handler`.
abbrev pub with_offload : ℕ → Software → Software
with_offload handler sw = record sw {
  run_normal = λ f p c. if f == handler then offload_sw_irq_handler sw p c else sw.run_normal f p c;
}

abbrev pub at_hw : Cpu → Hw → Cpu
at_hw c h = record c { hw = h }

abbrev pub then_do : Handled → (Cpu → Handled) → Handled
then_do (returned c) next = next c
then_do (unregistered n) next = unregistered n
then_do outside next = outside
then_do out_of_fuel next = out_of_fuel

abbrev pub declare_offload : ℕ → ℕ → ℕ → Cpu → Cpu
declare_offload handler routine parameter c =
    posix_isr_declare offload_sw_irq false (some handler) 0
      (record c { off_routine = routine; off_parameter = parameter })

abbrev pub disable_offload : Cpu → Cpu
disable_offload c = record c {
  hw = record c.hw { irq = posix_irq_disable offload_sw_irq c.hw.irq };
}

module _ (sw : Software) (handler fuel : ℕ) where
  -- `posix_irq_handler_im_from_sw`, called by the controller.
  abbrev pub from_sw : Cpu → Hw → Handled
  from_sw c h = posix_irq_handler_im_from_sw (with_offload handler sw) fuel (at_hw c h)

  abbrev pub no_call : Cpu → Hw → Handled
  no_call c h = returned (at_hw c h)

  abbrev pub enable_offload : Cpu → Handled
  enable_offload c = enable_then (from_sw c) (no_call c) offload_sw_irq c.hw

  abbrev pub pend_offload : Cpu → Handled
  pend_offload c = raise_im_then (from_sw c) (no_call c) offload_sw_irq c.hw

  unfoldable pub posix_irq_offload : ℕ → ℕ → Cpu → Handled
  unfolding enable_then raise_im_then posix_irq_handler_im_from_sw posix_isr_declare
      posix_irq_disable offload_sw_irq_handler
  posix_irq_offload routine parameter c =
      then_do (then_do (enable_offload (declare_offload handler routine parameter c)) pend_offload)
        (λ c'. returned (disable_offload c'))
