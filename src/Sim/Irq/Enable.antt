-- ===== src/Sim/Irq/Enable.antt =====
-- An interrupt that comes while it is masked is not lost.
use g_sierra.Common.{
  ℕ, zero, suc, ◌<◌, ◌≡◌, refl, ◌∙◌, ap, Bool, true, false, [], ◌∷◌, if◌then◌else◌, length,
  length-set, Bits, bit, set_bit, any_bit, bits_from, arith,
}
use g_sierra.Sim.{Hw, IrqCtrl, n_irqs}
use g_sierra.Sim.Irq.{
  mask_test, hw_irq_ctrl_irq_raise_prefix, hw_irq_ctrl_raise_im_from_sw, raise_im_then, enable_then,
  hw_irq_ctrl_enable_irq,
}
use g_sierra.Sim.Irq.Pending.{on_irq, unmask, raise, enable, run_ops}

bit-set_bit : (xs : Bits) (i : ℕ) → i < length xs → bit (set_bit xs i) i ≡ true
bit-set_bit [] i lt = absurd (omega arith)
bit-set_bit (x ∷ xs) zero lt = refl
bit-set_bit (x ∷ xs) (suc i) lt = bit-set_bit xs i (omega arith)

any-bits_from : (xs : Bits) (i : ℕ) → bit xs i ≡ true → any_bit (bits_from i xs) ≡ true
any-bits_from [] i h = cc
any-bits_from (x ∷ xs) zero h = ground arith
any-bits_from (x ∷ xs) (suc i) h = any-bits_from xs i h

mask_test-set_bit :
    (mask : Bits) (irq : ℕ)
    → length mask ≡ 64
    → irq < n_irqs
    → mask_test (set_bit mask irq) irq ≡ true
mask_test-set_bit mask irq size lt = ground (
  arith,
  bit-set_bit mask irq (omega arith),
  any-bits_from (set_bit mask irq) irq (bit-set_bit mask irq (omega arith)),
)

module _ (irq : ℕ) (lt : irq < n_irqs) (c : IrqCtrl) where
  raised-premask : (hw_irq_ctrl_irq_raise_prefix irq c).irq_premask ≡ set_bit c.irq_premask irq
  unfolding hw_irq_ctrl_irq_raise_prefix
  raised-premask = ground arith

  raised-status :
      mask_test c.irq_mask irq ≡ true
      → (hw_irq_ctrl_irq_raise_prefix irq c).irq_status ≡ set_bit c.irq_status irq
  unfolding hw_irq_ctrl_irq_raise_prefix
  raised-status open_ = ground arith

  raised_size :
      length c.irq_status ≡ 64 → length (hw_irq_ctrl_irq_raise_prefix irq c).irq_status ≡ 64
  unfolding hw_irq_ctrl_irq_raise_prefix
  raised_size size = ground (arith, length-set c.irq_status irq true)

  raised_lock : (hw_irq_ctrl_irq_raise_prefix irq c).irqs_locked ≡ c.irqs_locked
  unfolding hw_irq_ctrl_irq_raise_prefix
  raised_lock = ground arith

  raised_mask : (hw_irq_ctrl_irq_raise_prefix irq c).irq_mask ≡ c.irq_mask
  unfolding hw_irq_ctrl_irq_raise_prefix
  raised_mask = ground arith

if_pending :
    (handler_from_sw : Hw → Hw) (irq : ℕ) (h : Hw) (b : Bool)
    → bit (unmask irq h.irq).irq_premask irq ≡ true
    → (hw_irq_ctrl_irq_raise_prefix irq (unmask irq h.irq)).irqs_locked ≡ b
    → (let pended = on_irq (λ c. hw_irq_ctrl_irq_raise_prefix irq (unmask irq c)) h in
        hw_irq_ctrl_enable_irq handler_from_sw irq h
        ≡ (if b then pended else handler_from_sw pended))
unfolding hw_irq_ctrl_enable_irq hw_irq_ctrl_raise_im_from_sw raise_im_then enable_then
if_pending handler irq h true p e = simp (p, e)
if_pending handler irq h false p e = simp (p, e)

-- In sets of 64 bits, an interrupt below `N_IRQS` that is raised, masked or not, and enabled
-- afterwards has become pending behind the mask, and unless interrupts are locked the handler runs at
-- once.
pub enable-raise :
    (handler_from_sw : Hw → Hw) (irq : ℕ) (h : Hw)
    → irq < n_irqs
    → length h.irq.irq_premask ≡ 64
    → length h.irq.irq_mask ≡ 64
    → length h.irq.irq_status ≡ 64
    → (pended : Hw) × (bit pended.irq.irq_status irq ≡ true)
      × (run_ops handler_from_sw (raise irq ∷ enable irq ∷ []) h
          ≡ (if h.irq.irqs_locked then pended else handler_from_sw pended))
enable-raise handler irq h lt size_p size_m size_s =
    let c₁ = hw_irq_ctrl_irq_raise_prefix irq h.irq in
    (
      on_irq
          (λ c. hw_irq_ctrl_irq_raise_prefix irq (unmask irq (hw_irq_ctrl_irq_raise_prefix irq c)))
          h,
      ap (λ bs. bit bs irq)
            (raised-status irq lt (unmask irq c₁) (
              mask_test-set_bit c₁.irq_mask irq (ap length (raised_mask irq lt h.irq) ∙ size_m) lt))
          ∙ bit-set_bit c₁.irq_status irq (omega (arith, raised_size irq lt h.irq size_s)),
      if_pending handler irq (on_irq (hw_irq_ctrl_irq_raise_prefix irq) h) h.irq.irqs_locked
          (ap (λ bs. bit bs irq) (raised-premask irq lt h.irq)
            ∙ bit-set_bit h.irq.irq_premask irq (omega arith))
          (raised_lock irq lt (unmask irq c₁) ∙ raised_lock irq lt h.irq),
    )
