-- ===== src/Sim/Handler/Offload/Alone.antt =====
-- The controller when the interrupt of the offload is the only one that is pending.
use g_sierra.Common.{
  ℕ, zero, suc, ◌≤◌, ◌<◌, ◌≡◌, refl, ◌∙◌, ap, true, false, List, none, some, [], ◌∷◌, if◌then◌else◌,
  length, get_or, set, Bits, bit, bits_from, set_bit, clear_bit, any_bit, length-set, arith,
}
use g_sierra.Sim.{IrqCtrl}
use g_sierra.Sim.Irq.{
  found, hw_irq_ctrl_get_highest_prio_irq, hw_irq_ctrl_get_prio, hw_irq_ctrl_irq_raise_prefix,
}
use g_sierra.Sim.Irq.Highest.{locked, idle, chosen, hw_irq_ctrl_get_highest_prio_irq_lem}
use g_sierra.Sim.Irq.Pending.{unmask}
use g_sierra.Sim.Handler.Offload.{offload_sw_irq}

pub get_or-set_self {ℓ} :
    {A : Type ℓ} (xs : List A) (i : ℕ) (v d : A) → i < length xs → get_or (set xs i v) i d ≡ v
get_or-set_self [] i v d h = absurd (omega arith)
get_or-set_self (x ∷ xs) zero v d h = refl
get_or-set_self (x ∷ xs) (suc i) v d h = get_or-set_self xs i v d (omega arith)

bit_none : (bs : Bits) (i : ℕ) → any_bit bs ≡ false → bit bs i ≡ false
bit_none [] i h = refl
bit_none (true ∷ bs) i h = cc
bit_none (false ∷ bs) zero h = refl
bit_none (false ∷ bs) (suc i) h = bit_none bs i h

none_above : (n : ℕ) (bs : Bits) → any_bit bs ≡ false → any_bit (bits_from n bs) ≡ false
none_above zero bs h = h
none_above (suc n) [] h = refl
none_above (suc n) (true ∷ bs) h = cc
none_above (suc n) (false ∷ bs) h = none_above n bs h

-- Setting a bit below `n` leaves the bits from `n` on as they were.
bits_from-set_bit :
    (n : ℕ) (bs : Bits) (i : ℕ) → i < n → bits_from n (set_bit bs i) ≡ bits_from n bs
bits_from-set_bit zero bs i h = absurd (omega arith)
bits_from-set_bit (suc n) [] i h = refl
bits_from-set_bit (suc n) (b ∷ bs) zero h = refl
bits_from-set_bit (suc n) (b ∷ bs) (suc i) h = bits_from-set_bit n bs i (omega arith)

-- The only bit that is set.
pub set_bit_only : (bs : Bits) (i j : ℕ) → any_bit bs ≡ false → bit (set_bit bs i) j ≡ true → j ≡ i
set_bit_only [] i j none_ h = cc
set_bit_only (true ∷ bs) i j none_ h = cc
set_bit_only (false ∷ bs) zero zero none_ h = refl
set_bit_only (false ∷ bs) zero (suc j) none_ h = let off = bit_none bs j none_ in cc
set_bit_only (false ∷ bs) (suc i) zero none_ h = cc
set_bit_only (false ∷ bs) (suc i) (suc j) none_ h = ap suc (set_bit_only bs i j none_ h)

pub bit-clear_bit_self : (bs : Bits) (i : ℕ) → bit (clear_bit bs i) i ≡ false
bit-clear_bit_self [] i = refl
bit-clear_bit_self (b ∷ bs) zero = refl
bit-clear_bit_self (b ∷ bs) (suc i) = bit-clear_bit_self bs i

pub clear_bit-set_bit :
    (bs : Bits) (i : ℕ) → any_bit bs ≡ false → any_bit (clear_bit (set_bit bs i) i) ≡ false
clear_bit-set_bit [] i h = refl
clear_bit-set_bit (true ∷ bs) i h = cc
clear_bit-set_bit (false ∷ bs) zero h = h
clear_bit-set_bit (false ∷ bs) (suc i) h = clear_bit-set_bit bs i h

-- The controller with the interrupt enabled and pending.
abbrev pub pending_irq : IrqCtrl → IrqCtrl
pending_irq i = record i {
  irq_mask = set_bit i.irq_mask offload_sw_irq;
  irq_premask = set_bit i.irq_premask offload_sw_irq;
  irq_status = set_bit i.irq_status offload_sw_irq;
}

abbrev pub only_unmasked : IrqCtrl → IrqCtrl
only_unmasked i = unmask offload_sw_irq i

pub raise_prefix_lem :
    (i : IrqCtrl)
    → length i.irq_mask ≡ 64
    → hw_irq_ctrl_irq_raise_prefix offload_sw_irq (only_unmasked i) ≡ pending_irq i
unfolding hw_irq_ctrl_irq_raise_prefix
raise_prefix_lem i size =
    ap
      (λ b. record i {
        irq_mask = set_bit i.irq_mask offload_sw_irq;
        irq_premask = set_bit i.irq_premask offload_sw_irq;
        irq_status = if b then set_bit i.irq_status offload_sw_irq else i.irq_status;
      })
      (get_or-set_self i.irq_mask offload_sw_irq true false (omega (arith, size)))

-- With the interrupt alone pending, it is the next one, if it may interrupt.
pub highest_alone :
    (i : IrqCtrl)
    → i.irqs_locked ≡ false
    → any_bit i.irq_status ≡ false
    → length i.irq_status ≡ 64
    → i.currently_running_prio ≤ 256
    → hw_irq_ctrl_get_prio offload_sw_irq i < i.currently_running_prio
    → hw_irq_ctrl_get_highest_prio_irq (pending_irq i) ≡ found (some offload_sw_irq)
unfolding hw_irq_ctrl_get_prio
highest_alone i open_ none_ size bound urgent =
    let length_same = length-set i.irq_status offload_sw_irq true in
    elim (hw_irq_ctrl_get_highest_prio_irq_lem (pending_irq i) (omega (arith, length_same, size))
      (ap any_bit (bits_from-set_bit 32 i.irq_status offload_sw_irq (omega arith))
        ∙ none_above 32 i.irq_status none_)
      bound) [
        | locked l e ↦ absurd (cc)
        | idle u e all ↦ absurd (
            omega (
              arith,
              all offload_sw_irq
                  (get_or-set_self i.irq_status offload_sw_irq true false (omega (arith, size))),
              urgent,
            ))
        | chosen j u e highest ↦
            e
            ∙ ap (λ j. found (some j))
                (set_bit_only i.irq_status offload_sw_irq j none_ highest.pending)
      ]

pub highest_none :
    (i : IrqCtrl)
    → any_bit i.irq_status ≡ false
    → length i.irq_status ≤ 64
    → i.currently_running_prio ≤ 256
    → hw_irq_ctrl_get_highest_prio_irq i ≡ found none
highest_none i none_ size bound =
    elim (hw_irq_ctrl_get_highest_prio_irq_lem i size (none_above 32 i.irq_status none_) bound) [
      | locked l e ↦ e
      | idle u e all ↦ e
      | chosen j u e highest ↦
          let off = bit_none i.irq_status j none_ in let on = highest.pending in absurd (cc)
    ]
