-- ===== src/Sim/Handler/Offload/Steps.antt =====
-- The calls of `posix_irq_offload`, and the round of the handler that serves its interrupt.
use g_sierra.Common.{
  ℕ, ◌≤◌, ◌<◌, ◌≡◌, refl, ◌∙◌, ap, true, false, some, if_false, if◌then◌else◌, length, bit, any_bit,
  ==_iff, not,
}
use g_sierra.Sim.{IrqCtrl}
use g_sierra.Sim.Irq.{hw_irq_ctrl_set_cur_prio, hw_irq_ctrl_clear_irq, raise_im_then, enable_then}
use g_sierra.Sim.Handler.{
  Cpu, Software, IsrTableEntry, no_entry, returned, posix_irq_handler_im_from_sw, posix_isr_declare,
  enter, serve, vector_to_irq, run_entry, end_if_run, start_irq, end_irq,
}
use g_sierra.Sim.Handler.Offload.{
  offload_sw_irq, offload_sw_irq_handler, with_offload, then_do, declare_offload, disable_offload,
  enable_offload, pend_offload, posix_irq_offload,
}
use g_sierra.Sim.Handler.Offload.Alone.{
  get_or-set_self, pending_irq, only_unmasked, raise_prefix_lem,
}

-- The sets have 64 bits and the table has an entry for the interrupt; nothing is pending, nor is the
-- interrupt raised before the mask.
pub record IsFree (c : Cpu) : Type 0 where
  pub none_pending : any_bit c.hw.irq.irq_status ≡ false
  pub not_raised : bit c.hw.irq.irq_premask offload_sw_irq ≡ false
  pub status_size : length c.hw.irq.irq_status ≡ 64
  pub mask_size : length c.hw.irq.irq_mask ≡ 64
  pub table_size : offload_sw_irq < length c.irq_vector_table
  pub prio_bound : c.hw.irq.currently_running_prio ≤ 256

abbrev pub with_irq : (IrqCtrl → IrqCtrl) → Cpu → Cpu
with_irq f c = record c { hw = record c.hw { irq = f c.hw.irq } }

module _ (sw : Software) (handler : ℕ) where
  abbrev pub software : Software
  software = with_offload handler sw

  -- The state that the routine starts in.
  abbrev pub in_interrupt : Cpu → Cpu
  in_interrupt c = start_irq software offload_sw_irq (enter software (with_irq pending_irq c))

  -- The state behind the routine, back in the loop of the handler.
  abbrev pub behind_routine : ℕ → ℕ → Cpu → Cpu
  behind_routine routine parameter c =
      end_irq software (enter software (with_irq pending_irq c))
        (record (sw.run_normal routine parameter (in_interrupt c)) { may_swap = true })

  pub serve_offload :
      (routine parameter : ℕ) (c : Cpu)
      → offload_sw_irq < length c.irq_vector_table
      → (let d = declare_offload handler routine parameter c in
          serve software offload_sw_irq (enter software (with_irq pending_irq d))
          ≡ some (behind_routine routine parameter d))
  unfolding serve vector_to_irq posix_isr_declare offload_sw_irq_handler enter
      hw_irq_ctrl_set_cur_prio hw_irq_ctrl_clear_irq
  serve_offload routine parameter c size =
      let d = declare_offload handler routine parameter c in
      let entry : IsrTableEntry = record {
        irq = offload_sw_irq;
        func = some handler;
        param = 0;
        direct = false;
      } in
      ap
        (λ (e : IsrTableEntry).
          end_if_run software (enter software (with_irq pending_irq d))
            (run_entry software e.func e (in_interrupt d)))
        (get_or-set_self c.irq_vector_table offload_sw_irq entry no_entry size)
      ∙ ap
          (λ b. some (
            end_irq software (enter software (with_irq pending_irq d))
              (record (if b
                then sw.run_normal routine parameter (in_interrupt d)
                else sw.run_normal handler 0 (in_interrupt d)) { may_swap = true })))
          ((==_iff handler handler).1 refl)

  -- The calls that enable the interrupt and make it pending.
  enable_lem :
      (fuel : ℕ) (c : Cpu)
      → bit c.hw.irq.irq_premask offload_sw_irq ≡ false
      → enable_offload sw handler fuel c ≡ returned (with_irq only_unmasked c)
  unfolding enable_then
  enable_lem fuel c e = if_false _ _ _ e

  pend_lem :
      (fuel : ℕ) (c : Cpu)
      → length c.hw.irq.irq_mask ≡ 64
      → pend_offload sw handler fuel (with_irq only_unmasked c) ≡ (
          if not c.hw.irq.irqs_locked
          then posix_irq_handler_im_from_sw software fuel (with_irq pending_irq c)
          else returned (with_irq pending_irq c))
  unfolding raise_im_then
  pend_lem fuel c size =
      ap
        (λ (i : IrqCtrl).
          if not i.irqs_locked
          then posix_irq_handler_im_from_sw software fuel (with_irq (λ i'. i) c)
          else returned (with_irq (λ i'. i) c))
        (raise_prefix_lem c.hw.irq size)

  pub offload_until :
      (fuel routine parameter : ℕ) (c : Cpu)
      → IsFree c
      → (let d = declare_offload handler routine parameter c in
          posix_irq_offload sw handler fuel routine parameter c
          ≡ then_do
              (if not c.hw.irq.irqs_locked
                then posix_irq_handler_im_from_sw software fuel (with_irq pending_irq d)
                else returned (with_irq pending_irq d))
              (λ c'. returned (disable_offload c')))
  unfolding posix_irq_offload posix_isr_declare
  offload_until fuel routine parameter c free =
      let d = declare_offload handler routine parameter c in
      ap
        (λ h.
          then_do (then_do h (pend_offload sw handler fuel)) (λ c'. returned (disable_offload c')))
        (enable_lem fuel d free.not_raised)
      ∙ ap (λ h. then_do h (λ c'. returned (disable_offload c'))) (pend_lem fuel d free.mask_size)
