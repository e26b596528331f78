-- ===== src/Tests/Board.antt =====
-- The models of the simulated board at fixed inputs.
use Prim.Native.Nat.{◌+◌}
use g_sierra.Common.{
  if◌then◌else◌, ℕ, ◌≡◌, ◌≢◌, ◌⊎◌, refl, sym, ◌∙◌, ap, zero, suc, get_or, Bool, true, false, none,
  some, List, [], ◌∷◌, ◌++◌, map, length, take, replicate, codes, no_bits, bit, set_bit, arith, ◌↔◌,
}
use g_sierra.Common.Int.{pos}
use g_sierra.Sim.{Hw, IrqCtrl, never, timer_tick_irq, counter_event_irq, hwtimer}
use g_sierra.Sim.Irq.{hw_irq_ctrl_get_highest_prio_irq}
use g_sierra.Sim.Irq.Highest.{Choice, hw_irq_ctrl_get_highest_prio_irq_lem}
use g_sierra.Sim.Irq.Pending
use g_sierra.Sim.Handler.{
  IsrTableEntry, Cpu, Software, no_entry, posix_irq_lock, posix_irq_unlock, posix_irq_handler,
  returned, leave, enter,
}
use g_sierra.Sim.Handler.Lock.{posix_irq_unlock-posix_irq_lock}
use g_sierra.Sim.Handler.Serve.{IsQuiet, IsRegistered, IsDone, posix_irq_handler_lem}
use g_sierra.Sim.Timer.{hwtimer_set_silent_ticks, hwtimer_get_pending_silent_ticks}
use g_sierra.Sim.Timer.Ticks.{ticks, ticks-hwtimer_set_silent_ticks}
use g_sierra.Sim.Counter.{hw_counter_get_value, hw_counter_set_target}
use g_sierra.Sim.Counter.Target.{triggers, triggers-hw_counter_set_target}
use g_sierra.Cmdline.{skip_dash, cmd_is_option, matched}
use g_sierra.Cmdline.Match.{IsGiven, cmd_is_option_iff}
use g_sierra.Cmdline.Table.{Table, entry, end_marker, native_add_command_line_opts}
use g_sierra.Cmdline.Table.Grow.{Holds, native_add_command_line_opts-Holds}
use g_sierra.Cmdline.Options.{trace_options}

-- The controller with the interrupts 2 and 5 pending and of the same priority.
abbrev controller : IrqCtrl
controller = record {
  irq_ctrl_timer = never;
  irq_status = set_bit (set_bit no_bits 5) 2;
  irq_premask = set_bit (set_bit no_bits 5) 2;
  irq_mask = set_bit (set_bit no_bits 5) 2;
  irqs_locked = false;
  lock_ignore = false;
  irq_prio = replicate 32 1;
  currently_running_prio = 256;
}

abbrev board : Hw
board = record {
  simu_time = 10;
  end_of_time = never;
  next_timer_index = hwtimer;
  next_timer_time = 30;
  signaled_end = false;
  timer = record {
    hw_timer_timer = 30;
    hw_timer_tick_timer = 30;
    hw_timer_awake_timer = never;
    tick_p = 20;
    silent_ticks = pos 0;
    real_time_mode = false;
    reset_rtc = false;
    rtc_offset = 0;
    boot_time = 0;
    last_radj_rtime = 0;
    last_radj_stime = 0;
  };
  irq = controller;
  counter = record {
    hw_counter_timer = 40;
    counter_running = true;
    counter_value = 3;
    counter_target = never;
    counter_period = 7;
  };
}

hw_irq_ctrl_get_highest_prio_irq_lem_example :
    Choice controller (hw_irq_ctrl_get_highest_prio_irq controller)
hw_irq_ctrl_get_highest_prio_irq_lem_example =
    hw_irq_ctrl_get_highest_prio_irq_lem controller (omega arith) refl (omega arith)

abbrev ops : List Pending.IrqOp
ops = Pending.disable 5 ∷ Pending.raise 7 ∷ Pending.enable 7 ∷ Pending.clear 2 ∷ []

posix_irq_unlock-posix_irq_lock_example :
    (let (key, locked) = posix_irq_lock (λ h. h) board in posix_irq_unlock (λ h. h) key locked)
    ≡ board
posix_irq_unlock-posix_irq_lock_example = posix_irq_unlock-posix_irq_lock (λ h. h) board

abbrev asked : Hw
asked = record board { timer = hwtimer_set_silent_ticks (pos 2) board.timer }

ticks-hwtimer_set_silent_ticks_example :
    ((ticks 2 asked).irq ≡ board.irq)
    × (hwtimer_get_pending_silent_ticks (ticks 2 asked).timer ≡ pos 0)
    × ((ticks 3 asked).irq.irq_premask ≡ set_bit board.irq.irq_premask timer_tick_irq)
ticks-hwtimer_set_silent_ticks_example = ticks-hwtimer_set_silent_ticks 2 board

abbrev aimed : Hw
aimed = record board { counter = hw_counter_set_target 6 board.counter }

triggers-hw_counter_set_target_example :
    ((triggers 2 aimed).irq ≡ board.irq)
    × (hw_counter_get_value (triggers 2 aimed).counter ≡ 5)
    × ((triggers 3 aimed).irq.irq_premask ≡ set_bit board.irq.irq_premask counter_event_irq)
triggers-hw_counter_set_target_example =
    triggers-hw_counter_set_target 2 6 board refl refl (omega arith)

abbrev halt : Hw → Hw
halt h =
    if h.irq.lock_ignore
    then record h { irq = record h.irq { lock_ignore = false } }
    else record h { simu_time = h.simu_time + 1; irq = record h.irq { lock_ignore = true } }

-- Whether the CPU is woken once more before time passes.
abbrev due : Hw → ℕ
due h = if h.irq.lock_ignore then 1 else 0

-- Routines that do nothing; the direct ones ask for no swap.
abbrev software : Software
software = record {
  run_direct = λ f c. (false, c);
  run_normal = λ f p c. c;
  another_is_ready = λ c. false;
  swap = λ c. c;
}

abbrev routine : IsrTableEntry
routine = record { irq = 0; func = some 1; param = 0; direct = false }

abbrev cpu : Cpu
cpu = record {
  hw = board;
  irq_vector_table = replicate 64 routine;
  currently_running_irq = none;
  may_swap = false;
  nested = 0;
  off_routine = 0;
  off_parameter = 0;
}

quiet : IsQuiet software
quiet = record {
  direct_irq = λ f c. refl;
  direct_nested = λ f c. refl;
  direct_table = λ f c. refl;
  normal_irq = λ f p c. refl;
  normal_nested = λ f p c. refl;
  normal_table = λ f p c. refl;
}

get_or-replicate :
    {A : Type 0} (bs : List Bool) (i : ℕ) (a d : A)
    → bit bs i ≡ true
    → get_or (replicate (length bs) a) i d ≡ a
get_or-replicate [] i a d h = cc
get_or-replicate (b ∷ bs) zero a d h = refl
get_or-replicate (b ∷ bs) (suc i) a d h = get_or-replicate bs i a d h

some≢none : (n : ℕ) → some n ≢ none
some≢none n e = cc

cpu-IsRegistered : IsRegistered cpu
unfolding IsRegistered
cpu-IsRegistered i pending missing =
    let found = get_or-replicate controller.irq_status i routine no_entry pending in
    absurd (some≢none 1 (sym (ap (λ (e : IsrTableEntry). e.func) found) ∙ missing))

posix_irq_handler_lem_example :
    ((board.irq.irqs_locked ≡ true) × (posix_irq_handler software 3 cpu ≡ returned cpu))
    ⊎ ((board.irq.irqs_locked ≡ false)
        × ((d : Cpu) × (posix_irq_handler software 3 cpu ≡ returned (leave software d))
            × IsDone software quiet (enter software cpu) d))
posix_irq_handler_lem_example =
    posix_irq_handler_lem software quiet 3 cpu (omega arith) (omega arith) refl (omega arith)
      cpu-IsRegistered

cmd_is_option_iff_example :
    (cmd_is_option (codes "--rt-ratio=2") (codes "rt-ratio") true ≡ matched 11) ↔ (
      (value : List ℕ) × IsGiven
        (skip_dash (skip_dash (codes "--rt-ratio=2")))
        (codes "rt-ratio")
        value
      × (11 + length value ≡ length (codes "--rt-ratio=2")))
cmd_is_option_iff_example = cmd_is_option_iff (codes "--rt-ratio=2") (codes "rt-ratio") 11

-- The table before anything was added.
abbrev empty_table : Table
empty_table = record { args_struct = []; used_args = 0; args_aval = 0 }

native_add_command_line_opts-Holds_example :
    (t' : Table) × (native_add_command_line_opts trace_options empty_table ≡ some t')
    × Holds t' trace_options
    × (take (suc t'.used_args) t'.args_struct ≡ map entry trace_options ++ end_marker ∷ [])
native_add_command_line_opts-Holds_example =
    native_add_command_line_opts-Holds trace_options [] empty_table
      (record { used = refl; size = refl; entries = refl; fits = omega arith })
