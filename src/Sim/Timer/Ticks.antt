-- ===== src/Sim/Timer/Ticks.antt =====
-- Silent ticks: as many ticks as the kernel asked for raise no interrupt.
use g_sierra.Common.{ℕ, zero, suc, ◌+◌, ◌≡◌, refl, ◌∙◌, ap, set_bit, arith}
use g_sierra.Common.Int.{ℤ, pos}
use g_sierra.Sim.{Hw, IrqCtrl, timer_tick_irq, hwm_find_next_timer, consider_timer}
use g_sierra.Sim.Irq.{hw_irq_ctrl_irq_raise_prefix, hw_irq_ctrl_set_irq}
use g_sierra.Sim.Timer.{
  count_tick, ticked, hwtimer_tick_timer_reached, hwtimer_set_silent_ticks,
  hwtimer_get_pending_silent_ticks,
}

abbrev pub ticks : ℕ → Hw → Hw
ticks zero h = h
ticks (suc n) h = hwtimer_tick_timer_reached (ticks n h)

tick_from :
    (z : ℤ) (h : Hw)
    → h.timer.silent_ticks ≡ z
    → hwtimer_tick_timer_reached h ≡ count_tick z (ticked h)
unfolding hwtimer_tick_timer_reached
tick_from z h e = ap (λ z. count_tick z (ticked h)) e

abbrev Stays : ℕ → Hw → Hw → Type 0
Stays k h s = (s.irq ≡ h.irq) × (s.timer.silent_ticks ≡ pos k)

silent_lem : (k n : ℕ) (h : Hw) → h.timer.silent_ticks ≡ pos (n + k) → Stays k h (ticks n h)
unfolding count_tick
silent_lem k zero h e = (refl, e ∙ ap pos (omega arith))
silent_lem k (suc n) h e =
    let before = silent_lem (suc k) n h (e ∙ ap pos (omega arith)) in
    let step = tick_from (pos (suc k)) (ticks n h) before.1 in
    (ap (λ (s : Hw). s.irq) step ∙ before.0, ap (λ (s : Hw). s.timer.silent_ticks) step)

irq-hw_irq_ctrl_set_irq :
    (irq : ℕ) (h : Hw)
    → (hw_irq_ctrl_set_irq irq h).irq.irq_premask
      ≡ (hw_irq_ctrl_irq_raise_prefix irq h.irq).irq_premask
unfolding hw_irq_ctrl_set_irq hwm_find_next_timer consider_timer
irq-hw_irq_ctrl_set_irq irq h = ground arith

-- When the kernel asks for `n` silent ticks, the next `n` ticks change nothing in the interrupt
-- controller and leave none pending; the tick after them raises the timer's interrupt.
pub ticks-hwtimer_set_silent_ticks :
    (n : ℕ) (h : Hw)
    → (let asked = record h { timer = hwtimer_set_silent_ticks (pos n) h.timer } in
        ((ticks n asked).irq ≡ h.irq)
        × (hwtimer_get_pending_silent_ticks (ticks n asked).timer ≡ pos 0)
        × ((ticks (suc n) asked).irq.irq_premask ≡ set_bit h.irq.irq_premask timer_tick_irq))
unfolding hwtimer_set_silent_ticks hwtimer_get_pending_silent_ticks count_tick
    hw_irq_ctrl_irq_raise_prefix
ticks-hwtimer_set_silent_ticks n h =
    let asked = record h { timer = hwtimer_set_silent_ticks (pos n) h.timer } in
    let silent = silent_lem 0 n asked (ap pos (omega arith)) in
    (
      silent.0,
      silent.1,
      ap (λ (s : Hw). s.irq.irq_premask) (tick_from (pos 0) (ticks n asked) silent.1)
          ∙ irq-hw_irq_ctrl_set_irq timer_tick_irq (ticked (ticks n asked))
          ∙ ap (λ (c : IrqCtrl). set_bit c.irq_premask timer_tick_irq) silent.0,
    )
