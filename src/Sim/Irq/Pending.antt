-- ===== src/Sim/Irq/Pending.antt =====
-- What is pending: an interrupt is marked behind the mask only if it is marked before it.
use g_sierra.Common.{
  ℕ, zero, suc, ◌≡◌, refl, ◌∙◌, ap, Bool, true, false, not, ◌&&◌, ◌||◌, List, [], ◌∷◌,
  if◌then◌else◌, length, length-set, replicate, set, Bits, no_bits, bit, set_bit, any_bit, and_not,
  arith,
}
use g_sierra.Sim.{Hw, IrqCtrl}
use g_sierra.Sim.Irq.{
  hw_irq_ctrl_prio_set, hw_irq_ctrl_set_cur_prio, hw_irq_ctrl_clear_all_enabled_irqs,
  hw_irq_ctrl_clear_all_irqs, hw_irq_ctrl_disable_irq, hw_irq_ctrl_clear_irq,
  hw_irq_ctrl_irq_raise_prefix, hw_irq_ctrl_raise_im_from_sw, raise_im_then, enable_then,
  hw_irq_ctrl_enable_irq, hw_irq_ctrl_change_lock,
}

-- Both sets have as many bits, and the second has those of the first.
abbrev pub within : Bits → Bits → Bool
within [] [] = true
within [] (y ∷ ys) = false
within (x ∷ xs) [] = false
within (x ∷ xs) (y ∷ ys) = (not x || y) && within xs ys

within-set :
    (xs ys : Bits) (i : ℕ) (b : Bool)
    → within xs ys ≡ true
    → within (set xs i b) (set ys i b) ≡ true
within-set [] [] i b h = refl
within-set [] (y ∷ ys) i b h = cc
within-set (x ∷ xs) [] i b h = cc
within-set (x ∷ xs) (y ∷ ys) zero true h = ground arith
within-set (x ∷ xs) (y ∷ ys) zero false h = ground arith
within-set (x ∷ xs) (y ∷ ys) (suc i) b h = ground (arith, within-set xs ys i b)

within-set_bit : (xs ys : Bits) (i : ℕ) → within xs ys ≡ true → within xs (set_bit ys i) ≡ true
within-set_bit [] [] i h = refl
within-set_bit [] (y ∷ ys) i h = cc
within-set_bit (x ∷ xs) [] i h = cc
within-set_bit (x ∷ xs) (y ∷ ys) zero h = ground arith
within-set_bit (x ∷ xs) (y ∷ ys) (suc i) h = ground (arith, within-set_bit xs ys i)

within_none : (ys : Bits) → within (replicate (length ys) false) ys ≡ true
within_none [] = refl
within_none (y ∷ ys) = within_none ys

length-and_not : (xs ys : Bits) → length (and_not xs ys) ≡ length xs
length-and_not [] ys = refl
length-and_not (x ∷ xs) [] = refl
length-and_not (x ∷ xs) (y ∷ ys) = ap suc (length-and_not xs ys)

-- Every interrupt that is pending behind the mask is pending before it, in sets of 64 bits.
pub record IsConsistent (c : IrqCtrl) : Type 0 where
  pub size : length c.irq_premask ≡ 64
  pub marked : within c.irq_status c.irq_premask ≡ true

no_bits-within : (ys : Bits) → length ys ≡ 64 → within no_bits ys ≡ true
no_bits-within ys h =
    let all : within (replicate (length ys) false) ys ≡ true = within_none ys in rw h at all

pub hw_irq_ctrl_irq_raise_prefix-IsConsistent :
    (irq : ℕ) (c : IrqCtrl) → IsConsistent c → IsConsistent (hw_irq_ctrl_irq_raise_prefix irq c)
unfolding hw_irq_ctrl_irq_raise_prefix
hw_irq_ctrl_irq_raise_prefix-IsConsistent irq c h = record {
  size = ground (arith, length-set c.irq_premask irq true, h.size);
  marked = ground (
    arith,
    within-set c.irq_status c.irq_premask irq true h.marked,
    within-set_bit c.irq_status c.irq_premask irq h.marked,
    h.marked,
  );
}

-- What the board and the software do to the controller. `hw_irq_ctrl_init`, which leaves `irq_status`
-- as it was, is not among it.
pub data IrqOp : Type 0 where
  clear_all clear_all_enabled : IrqOp
  set_cur_prio disable clear raise enable raise_from_sw : ℕ → IrqOp
  prio_set : ℕ → ℕ → IrqOp
  change_lock : Bool → IrqOp

abbrev pub on_irq : (IrqCtrl → IrqCtrl) → Hw → Hw
on_irq f h = record h { irq = f h.irq }

abbrev pub unmask : ℕ → IrqCtrl → IrqCtrl
unmask irq c = record c { irq_mask = set_bit c.irq_mask irq }

module _ (handler_from_sw : Hw → Hw) where
  abbrev pub run_op : IrqOp → Hw → Hw
  run_op clear_all h = on_irq hw_irq_ctrl_clear_all_irqs h
  run_op clear_all_enabled h = on_irq hw_irq_ctrl_clear_all_enabled_irqs h
  run_op (set_cur_prio p) h = on_irq (hw_irq_ctrl_set_cur_prio p) h
  run_op (disable i) h = on_irq (hw_irq_ctrl_disable_irq i) h
  run_op (clear i) h = on_irq (hw_irq_ctrl_clear_irq i) h
  run_op (raise i) h = on_irq (hw_irq_ctrl_irq_raise_prefix i) h
  run_op (enable i) h = hw_irq_ctrl_enable_irq handler_from_sw i h
  run_op (raise_from_sw i) h = hw_irq_ctrl_raise_im_from_sw handler_from_sw i h
  run_op (prio_set i p) h = on_irq (hw_irq_ctrl_prio_set i p) h
  run_op (change_lock b) h = (hw_irq_ctrl_change_lock handler_from_sw b h).1

  abbrev pub run_ops : List IrqOp → Hw → Hw
  run_ops [] h = h
  run_ops (op ∷ ops) h = run_ops ops (run_op op h)

  module _ (keeps : (h : Hw) → IsConsistent h.irq → IsConsistent (handler_from_sw h).irq) where
    either_way :
        (b : Bool) (h : Hw)
        → IsConsistent h.irq
        → IsConsistent (if b then handler_from_sw h else h).irq
    either_way true h p = keeps h p
    either_way false h p = p

    raise_from_sw-IsConsistent :
        (irq : ℕ) (h : Hw)
        → IsConsistent h.irq
        → IsConsistent (hw_irq_ctrl_raise_im_from_sw handler_from_sw irq h).irq
    unfolding hw_irq_ctrl_raise_im_from_sw raise_im_then
    raise_from_sw-IsConsistent irq h p =
        either_way _ (on_irq (hw_irq_ctrl_irq_raise_prefix irq) h)
          (hw_irq_ctrl_irq_raise_prefix-IsConsistent irq h.irq p)

    enable_either :
        (b : Bool) (irq : ℕ) (h : Hw)
        → IsConsistent h.irq
        → IsConsistent (if b then hw_irq_ctrl_raise_im_from_sw handler_from_sw irq h else h).irq
    enable_either true irq h p = raise_from_sw-IsConsistent irq h p
    enable_either false irq h p = p

    pub run_op-IsConsistent :
        (op : IrqOp) (h : Hw) → IsConsistent h.irq → IsConsistent (run_op op h).irq
    unfolding hw_irq_ctrl_clear_all_irqs hw_irq_ctrl_clear_all_enabled_irqs hw_irq_ctrl_set_cur_prio
        hw_irq_ctrl_disable_irq hw_irq_ctrl_clear_irq hw_irq_ctrl_prio_set hw_irq_ctrl_enable_irq
        hw_irq_ctrl_raise_im_from_sw hw_irq_ctrl_change_lock enable_then
    run_op-IsConsistent clear_all h p = record { size = refl; marked = refl }
    run_op-IsConsistent clear_all_enabled h p = record {
      size = length-and_not h.irq.irq_premask h.irq.irq_mask ∙ p.size;
      marked = no_bits-within _ (length-and_not h.irq.irq_premask h.irq.irq_mask ∙ p.size);
    }
    run_op-IsConsistent (set_cur_prio v) h p = record { size = p.size; marked = p.marked }
    run_op-IsConsistent (disable i) h p = record { size = p.size; marked = p.marked }
    run_op-IsConsistent (clear i) h p = record {
      size = length-set h.irq.irq_premask i false ∙ p.size;
      marked = within-set h.irq.irq_status h.irq.irq_premask i false p.marked;
    }
    run_op-IsConsistent (raise i) h p = hw_irq_ctrl_irq_raise_prefix-IsConsistent i h.irq p
    run_op-IsConsistent (enable i) h p =
        enable_either (bit h.irq.irq_premask i) i (on_irq (unmask i) h)
          (record { size = p.size; marked = p.marked })
    run_op-IsConsistent (raise_from_sw i) h p = raise_from_sw-IsConsistent i h p
    run_op-IsConsistent (prio_set i v) h p = record { size = p.size; marked = p.marked }
    run_op-IsConsistent (change_lock b) h p =
        either_way (h.irq.irqs_locked && not b && any_bit h.irq.irq_status)
          (on_irq (λ c. record c { irqs_locked = b }) h)
          (record { size = p.size; marked = p.marked })
