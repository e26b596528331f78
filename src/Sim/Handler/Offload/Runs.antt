-- ===== src/Sim/Handler/Offload/Runs.antt =====
-- What `posix_irq_offload` does, with interrupts locked and not.
use g_sierra.Common.{
  ℕ, suc, ◌<◌, ◌≡◌, refl, ◌∙◌, ap, ◌⊎◌, inl, inr, Bool, true, false, none, some, if◌then◌else◌,
  length, bit, set_bit, any_bit, length-set, Bool-cases, not, arith,
}
use g_sierra.Sim.{IrqCtrl}
use g_sierra.Sim.Irq.{
  found, search_outside, search_unfinished, hw_irq_ctrl_get_highest_prio_irq, hw_irq_ctrl_get_prio,
  hw_irq_ctrl_set_cur_prio, hw_irq_ctrl_clear_irq, hw_irq_ctrl_disable_irq,
}
use g_sierra.Sim.Handler.{
  outside, out_of_fuel, Cpu, Software, Handled, returned, posix_irq_handler_im_from_sw,
  posix_irq_handler, posix_isr_declare, posix_irq_disable, enter, leave, serve_all, then_leave,
}
use g_sierra.Sim.Handler.Serve.{serve_all-none, serve_all-some}
use g_sierra.Sim.Handler.Offload.{
  offload_sw_irq, then_do, declare_offload, disable_offload, posix_irq_offload,
}
use g_sierra.Sim.Handler.Offload.Alone.{
  get_or-set_self, bit-clear_bit_self, clear_bit-set_bit, pending_irq, highest_alone, highest_none,
}
use g_sierra.Sim.Handler.Offload.Steps.{
  IsFree, with_irq, software, in_interrupt, behind_routine, serve_offload, offload_until,
}

module _ (sw : Software) (handler : ℕ) where
  -- The routine has run once, as the interrupt, and nothing is left pending behind it.
  pub record IsRun (routine parameter : ℕ) (c d : Cpu) : Type 0 where
    pub is_open : c.hw.irq.irqs_locked ≡ false
    pub run_once :
        d
        ≡ disable_offload (
            leave (software sw handler) (
              behind_routine sw handler routine parameter
                (declare_offload handler routine parameter c)))
    pub none_left :
        (let b =
            behind_routine sw handler routine parameter
              (declare_offload handler routine parameter c) in
          any_bit b.hw.irq.irq_status ≡ false)

  -- The routine has not run; its interrupt is pending, although it is disabled.
  pub record IsDeferred (routine parameter : ℕ) (c d : Cpu) : Type 0 where
    pub is_locked : c.hw.irq.irqs_locked ≡ true
    pub not_run :
        d ≡ disable_offload (with_irq pending_irq (declare_offload handler routine parameter c))
    pub pending : bit d.hw.irq.irq_status offload_sw_irq ≡ true
    pub disabled : bit d.hw.irq.irq_mask offload_sw_irq ≡ false

  module _ (fuel routine parameter : ℕ) (c : Cpu) (free : IsFree c)
      (urgent : hw_irq_ctrl_get_prio offload_sw_irq c.hw.irq < c.hw.irq.currently_running_prio)
      (leaves : (c' : Cpu) → (sw.run_normal routine parameter c').hw.irq ≡ c'.hw.irq) where
    abbrev declared : Cpu
    declared = declare_offload handler routine parameter c

    behind_irq :
        (behind_routine sw handler routine parameter declared).hw.irq
        ≡ hw_irq_ctrl_clear_irq offload_sw_irq (pending_irq c.hw.irq)
    unfolding posix_isr_declare hw_irq_ctrl_clear_irq hw_irq_ctrl_set_cur_prio enter
    behind_irq =
        ap (hw_irq_ctrl_set_cur_prio c.hw.irq.currently_running_prio)
          (leaves (in_interrupt sw handler declared))

    none_behind :
        any_bit (behind_routine sw handler routine parameter declared).hw.irq.irq_status ≡ false
    unfolding hw_irq_ctrl_clear_irq
    none_behind =
        ap (λ (i : IrqCtrl). any_bit i.irq_status) behind_irq
        ∙ clear_bit-set_bit c.hw.irq.irq_status offload_sw_irq free.none_pending

    highest_behind :
        hw_irq_ctrl_get_highest_prio_irq
          (behind_routine sw handler routine parameter declared).hw.irq
        ≡ found none
    unfolding hw_irq_ctrl_clear_irq
    highest_behind =
        let status = ap (λ (i : IrqCtrl). length i.irq_status) behind_irq in
        let prio = ap (λ (i : IrqCtrl). i.currently_running_prio) behind_irq in
        highest_none (behind_routine sw handler routine parameter declared).hw.irq none_behind
          (omega (
            arith,
            status,
            length-set (set_bit c.hw.irq.irq_status offload_sw_irq) offload_sw_irq false,
            length-set c.hw.irq.irq_status offload_sw_irq true,
            free.status_size,
          ))
          (omega (arith, prio, free.prio_bound))

    handler_runs :
        c.hw.irq.irqs_locked ≡ false
        → posix_irq_handler_im_from_sw
            (software sw handler)
            (suc (suc fuel))
            (with_irq pending_irq declared)
          ≡ returned
              (leave (software sw handler) (behind_routine sw handler routine parameter declared))
    unfolding posix_irq_handler_im_from_sw posix_irq_handler posix_isr_declare enter
    handler_runs open_ =
        let p = with_irq pending_irq declared in
        let next : hw_irq_ctrl_get_highest_prio_irq p.hw.irq ≡ found (some offload_sw_irq) =
          highest_alone c.hw.irq open_ free.none_pending free.status_size free.prio_bound urgent in
        ap
          (λ o. elim o [
            | found none ↦ returned p
            | found (some irq_nbr) ↦ posix_irq_handler (software sw handler) (suc (suc fuel)) p
            | search_outside ↦ outside
            | search_unfinished ↦ out_of_fuel
          ])
          next
        ∙ ap
            (λ b.
              if b
              then returned p
              else then_leave (software sw handler) (
                  serve_all (software sw handler) (suc (suc fuel)) (enter (software sw handler) p)))
            open_
        ∙ ap (then_leave (software sw handler)) (
            serve_all-some (software sw handler) (suc fuel) offload_sw_irq
              (enter (software sw handler) p) (behind_routine sw handler routine parameter declared)
              next (serve_offload sw handler routine parameter c free.table_size)
            ∙ serve_all-none (software sw handler) fuel
                (behind_routine sw handler routine parameter declared) highest_behind)

    -- If nothing is pending nor the interrupt of the offload raised, the sets have 64 bits, the table
    -- an entry for it, the running priority is at most 256 and behind that of the interrupt, and the
    -- routine leaves the controller alone, `posix_irq_offload` returns, with fuel for two rounds of the
    -- handler. Where interrupts are not locked, the routine has then run exactly once, with its
    -- parameter, as that interrupt, and nothing was left pending. Where they are locked it has not run,
    -- and its interrupt stays pending although it is disabled.
    pub posix_irq_offload_lem :
        (d : Cpu) × (posix_irq_offload sw handler (suc (suc fuel)) routine parameter c ≡ returned d)
        × (IsRun routine parameter c d ⊎ IsDeferred routine parameter c d)
    unfolding posix_isr_declare posix_irq_disable hw_irq_ctrl_disable_irq
    posix_irq_offload_lem =
        let until = offload_until sw handler (suc (suc fuel)) routine parameter c free in
        let p = with_irq pending_irq declared in
        let end = λ (h : Handled). then_do h (λ c'. returned (disable_offload c')) in
        let pend = λ (b : Bool). end (
          if not b
          then posix_irq_handler_im_from_sw (software sw handler) (suc (suc fuel)) p
          else returned p) in
        elim (Bool-cases c.hw.irq.irqs_locked) [
          | inl l ↦ (
            disable_offload p,
            until ∙ ap pend l,
            inr (record {
              is_locked = l;
              not_run = refl;
              pending =
                  get_or-set_self c.hw.irq.irq_status offload_sw_irq true false
                    (omega (arith, free.status_size));
              disabled =
                  bit-clear_bit_self (set_bit c.hw.irq.irq_mask offload_sw_irq) offload_sw_irq;
            }),
          )
          | inr o ↦ (
            disable_offload (
                leave (software sw handler) (behind_routine sw handler routine parameter declared)),
            until ∙ ap pend o ∙ ap end (handler_runs o),
            inl (record { is_open = o; run_once = refl; none_left = none_behind }),
          )
        ]
