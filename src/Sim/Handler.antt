-- ===== src/Sim/Handler.antt =====
-- irq_handler.c: how the CPU serves interrupts. The routines that the program registers are numbers,
-- which `Software` runs; the scheduler of the kernel is a part of it.
pub mod Serve
pub mod Lock
pub mod Offload
use g_sierra.Common.{
  ℕ, zero, suc, ◌+◌, ◌-◌, Bool, true, false, not, ◌&&◌, ◌||◌, Option, none, some, List, [], ◌∷◌,
  ◌==◌, if◌then◌else◌, get_or, set, replicate,
}
use g_sierra.Sim.{Hw, IrqCtrl}
use g_sierra.Sim.Irq.{
  found, search_outside, search_unfinished, hw_irq_ctrl_get_highest_prio_irq, hw_irq_ctrl_get_prio,
  hw_irq_ctrl_set_cur_prio, hw_irq_ctrl_clear_irq, hw_irq_ctrl_change_lock, hw_irq_ctrl_enable_irq,
  hw_irq_ctrl_disable_irq, hw_irq_ctrl_raise_im_from_sw, hw_irq_ctrl_is_irq_enabled,
  hw_irq_ctrl_prio_set,
}

-- An entry of the vector table; `func` is nothing for `NULL`, and `direct` is `ISR_FLAG_DIRECT` of
-- the flags.
pub record IsrTableEntry : Type 0 where
  pub irq : ℕ
  pub func : Option ℕ
  pub param : ℕ
  pub direct : Bool

abbrev pub no_entry : IsrTableEntry
no_entry = record { irq = 0; func = none; param = 0; direct = false }

-- `currently_running_irq` is nothing for -1; of `may_swap` only the truth is used; `off_routine` and
-- `off_parameter` are the routine that runs as an interrupt, and what it is given.
pub record Cpu : Type 0 where
  pub hw : Hw
  pub irq_vector_table : List IsrTableEntry
  pub currently_running_irq : Option ℕ
  pub may_swap : Bool
  pub nested : ℕ
  pub off_routine : ℕ
  pub off_parameter : ℕ

-- What is not part of the board: the registered routines, the direct ones with their result, the
-- test that the next ready thread is another one, and the swap to it.
pub record Software : Type 0 where
  pub run_direct : ℕ → Cpu → Bool × Cpu
  pub run_normal : ℕ → ℕ → Cpu → Cpu
  pub another_is_ready : Cpu → Bool
  pub swap : Cpu → Cpu

-- The handler returns, stops the process on an interrupt without a routine, reads outside the table of
-- priorities, or its loop runs out of fuel.
pub data Handled : Type 0 where
  returned : Cpu → Handled
  unregistered : ℕ → Handled
  outside : Handled
  out_of_fuel : Handled

module _ (sw : Software) where
  abbrev pub after_direct : Bool × Cpu → Cpu
  after_direct (swap_asked, c) = record c { may_swap = c.may_swap || swap_asked }

  abbrev pub run_routine : IsrTableEntry → ℕ → Cpu → Cpu
  run_routine entry f c =
      if entry.direct
      then after_direct (sw.run_direct f c)
      else record (sw.run_normal f entry.param c) { may_swap = true }

  abbrev pub run_entry : Option ℕ → IsrTableEntry → Cpu → Option Cpu
  run_entry none entry c = none
  run_entry (some f) entry c = some (run_routine entry f c)

  unfoldable pub vector_to_irq : ℕ → Cpu → Option Cpu
  vector_to_irq irq_nbr c =
      let entry = get_or c.irq_vector_table irq_nbr no_entry in run_entry entry.func entry c

  abbrev pub start_irq : ℕ → Cpu → Cpu
  start_irq irq_nbr c =
      let at_prio = hw_irq_ctrl_set_cur_prio (hw_irq_ctrl_get_prio irq_nbr c.hw.irq) c.hw.irq in
      record c {
        hw = record c.hw { irq = hw_irq_ctrl_clear_irq irq_nbr at_prio };
        currently_running_irq = some irq_nbr;
      }

  -- The state `c'` after the routine gets back what `c` had before.
  abbrev pub end_irq : Cpu → Cpu → Cpu
  end_irq c c' = record c' {
    currently_running_irq = c.currently_running_irq;
    hw = record c'.hw { irq = hw_irq_ctrl_set_cur_prio c.hw.irq.currently_running_prio c'.hw.irq };
  }

  abbrev pub end_if_run : Cpu → Option Cpu → Option Cpu
  end_if_run c none = none
  end_if_run c (some c') = some (end_irq c c')

  -- The body of the loop, for one interrupt.
  unfoldable pub serve : ℕ → Cpu → Option Cpu
  unfolding vector_to_irq
  serve irq_nbr c = end_if_run c (vector_to_irq irq_nbr (start_irq irq_nbr c))

  -- The loop, on fuel.
  unfoldable pub serve_all : ℕ → Cpu → Handled
  unfolding serve hw_irq_ctrl_get_highest_prio_irq
  serve_all zero c = out_of_fuel
  serve_all (suc fuel) c = elim (hw_irq_ctrl_get_highest_prio_irq c.hw.irq) [
    | found none ↦ returned c
    | found (some irq_nbr) ↦ elim (serve irq_nbr c) [
      | none ↦ unregistered irq_nbr
      | some c' ↦ serve_all fuel c'
    ]
    | search_outside ↦ outside
    | search_unfinished ↦ out_of_fuel
  ]

  -- What follows the loop.
  unfoldable pub leave : Cpu → Cpu
  leave c =
      let c' = record c { nested = c.nested - 1 } in
      if c'.may_swap && c'.hw.irq.currently_running_prio == 256 && sw.another_is_ready c'
      then sw.swap c'
      else c'

  abbrev pub then_leave : Handled → Handled
  then_leave (returned c) = returned (leave c)
  then_leave (unregistered n) = unregistered n
  then_leave outside = outside
  then_leave out_of_fuel = out_of_fuel

  unfoldable pub enter : Cpu → Cpu
  enter c = record c {
    may_swap = if c.nested == 0 then false else c.may_swap;
    nested = c.nested + 1;
  }

  unfoldable pub posix_irq_handler : ℕ → Cpu → Handled
  unfolding serve_all leave enter
  posix_irq_handler fuel c =
      if c.hw.irq.irqs_locked then returned c else then_leave (serve_all fuel (enter c))

  -- Called by a hardware model it would stop the process; here the CPU runs.
  unfoldable pub posix_irq_handler_im_from_sw : ℕ → Cpu → Handled
  unfolding posix_irq_handler hw_irq_ctrl_get_highest_prio_irq
  posix_irq_handler_im_from_sw fuel c = elim (hw_irq_ctrl_get_highest_prio_irq c.hw.irq) [
    | found none ↦ returned c
    | found (some irq_nbr) ↦ posix_irq_handler fuel c
    | search_outside ↦ outside
    | search_unfinished ↦ out_of_fuel
  ]

unfoldable pub posix_isr_declare : ℕ → Bool → Option ℕ → ℕ → Cpu → Cpu
posix_isr_declare irq_p direct isr_p isr_param_p c = record c {
  irq_vector_table =
      set c.irq_vector_table irq_p
        (record { irq = irq_p; func = isr_p; param = isr_param_p; direct = direct });
}

module _ (handler_from_sw : Hw → Hw) where
  unfoldable pub posix_irq_lock : Hw → Bool × Hw
  unfolding hw_irq_ctrl_change_lock
  posix_irq_lock h = hw_irq_ctrl_change_lock handler_from_sw true h

  unfoldable pub posix_irq_unlock : Bool → Hw → Hw
  unfolding hw_irq_ctrl_change_lock
  posix_irq_unlock key h = (hw_irq_ctrl_change_lock handler_from_sw key h).1

  unfoldable pub posix_irq_full_unlock : Hw → Hw
  unfolding hw_irq_ctrl_change_lock
  posix_irq_full_unlock h = (hw_irq_ctrl_change_lock handler_from_sw false h).1

  unfoldable pub posix_irq_enable : ℕ → Hw → Hw
  unfolding hw_irq_ctrl_enable_irq
  posix_irq_enable irq h = hw_irq_ctrl_enable_irq handler_from_sw irq h

  unfoldable pub posix_sw_set_pending_irq : ℕ → Hw → Hw
  unfolding hw_irq_ctrl_raise_im_from_sw
  posix_sw_set_pending_irq irq h = hw_irq_ctrl_raise_im_from_sw handler_from_sw irq h

unfoldable pub posix_irq_disable : ℕ → IrqCtrl → IrqCtrl
unfolding hw_irq_ctrl_disable_irq
posix_irq_disable irq c = hw_irq_ctrl_disable_irq irq c

unfoldable pub posix_irq_is_enabled : ℕ → IrqCtrl → Bool
unfolding hw_irq_ctrl_is_irq_enabled
posix_irq_is_enabled irq c = hw_irq_ctrl_is_irq_enabled irq c

unfoldable pub posix_irq_priority_set : ℕ → ℕ → IrqCtrl → IrqCtrl
unfolding hw_irq_ctrl_prio_set
posix_irq_priority_set irq prio c = hw_irq_ctrl_prio_set irq prio c

unfoldable pub posix_sw_clear_pending_irq : ℕ → IrqCtrl → IrqCtrl
unfolding hw_irq_ctrl_clear_irq
posix_sw_clear_pending_irq irq c = hw_irq_ctrl_clear_irq irq c
