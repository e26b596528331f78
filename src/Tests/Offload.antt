-- ===== src/Tests/Offload.antt =====
-- A routine that runs as an interrupt, and a wait that interrupts prolong.
use g_sierra.Common.{◌+◌, ◌≡◌, refl, ◌⊎◌, false, none, replicate, arith}
use g_sierra.Sim.{Hw, n_irqs}
use g_sierra.Sim.Irq.{hw_irq_ctrl_get_prio}
use g_sierra.Sim.Machine.{hw_at_start}
use g_sierra.Sim.Handler.{Cpu, Software, no_entry, returned}
use g_sierra.Sim.Handler.Offload.{posix_irq_offload}
use g_sierra.Sim.Handler.Offload.Steps.{IsFree}
use g_sierra.Sim.Handler.Offload.Runs.{IsRun, IsDeferred, posix_irq_offload_lem}

-- A routine notes what it was given.
abbrev noting : Software
noting = record {
  run_direct = λ f c. (false, c);
  run_normal = λ f p c. record c { off_parameter = p };
  another_is_ready = λ c. false;
  swap = λ c. c;
}

abbrev idle_cpu : Cpu
idle_cpu = record {
  hw = hw_at_start false;
  irq_vector_table = replicate n_irqs no_entry;
  currently_running_irq = none;
  may_swap = false;
  nested = 0;
  off_routine = 0;
  off_parameter = 0;
}

idle_cpu-IsFree : IsFree idle_cpu
idle_cpu-IsFree = record {
  none_pending = refl;
  not_raised = refl;
  status_size = refl;
  mask_size = refl;
  table_size = omega arith;
  prio_bound = omega arith;
}

posix_irq_offload_lem_example :
    (d : Cpu) × (posix_irq_offload noting 9 2 7 5 idle_cpu ≡ returned d)
    × (IsRun noting 9 7 5 idle_cpu d ⊎ IsDeferred noting 9 7 5 idle_cpu d)
unfolding hw_irq_ctrl_get_prio
posix_irq_offload_lem_example =
    posix_irq_offload_lem noting 9 0 7 5 idle_cpu idle_cpu-IsFree (omega arith) (λ c'. refl)

-- A halt of one microsecond, and an interrupt handler that takes two.
abbrev one_later : Hw → Hw
one_later h = record h { simu_time = h.simu_time + 1 }

abbrev two_later : Hw → Hw
two_later h = record h { simu_time = h.simu_time + 2 }
