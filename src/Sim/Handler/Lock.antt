-- ===== src/Sim/Handler/Lock.antt =====
-- Locking and unlocking are inverse.
use g_sierra.Common.{◌≡◌, refl, ap, ◌∙◌, Bool, true, false, not, ◌&&◌, if◌then◌else◌, any_bit}
use g_sierra.Sim.{Hw}
use g_sierra.Sim.Irq.{hw_irq_ctrl_change_lock}
use g_sierra.Sim.Handler.{posix_irq_lock, posix_irq_unlock}

abbrev with_lock : Bool → Hw → Hw
with_lock b h = record h { irq = record h.irq { irqs_locked = b } }

no_unlock : (b x : Bool) (f s : Hw) → (if b && not true && x then f else s) ≡ s
no_unlock true x f s = refl
no_unlock false x f s = refl

posix_irq_lock_lem :
    (handler_from_sw : Hw → Hw) (h : Hw)
    → posix_irq_lock handler_from_sw h ≡ (h.irq.irqs_locked, with_lock true h)
unfolding posix_irq_lock hw_irq_ctrl_change_lock
posix_irq_lock_lem handler h = ap (λ s. (h.irq.irqs_locked, s)) (no_unlock h.irq.irqs_locked _ _ _)

unlock_to :
    (handler_from_sw : Hw → Hw) (h : Hw) (key : Bool)
    → posix_irq_unlock handler_from_sw key (with_lock true h) ≡ (
        if not key && any_bit h.irq.irq_status
        then handler_from_sw (with_lock key h)
        else with_lock key h)
unfolding posix_irq_unlock hw_irq_ctrl_change_lock
unlock_to handler h true = refl
unlock_to handler h false = refl

-- `posix_irq_unlock` with the key of `posix_irq_lock` gives back the state before, locked or not,
-- and only where interrupts were not locked and one is pending does the handler then run on it.
pub posix_irq_unlock-posix_irq_lock :
    (handler_from_sw : Hw → Hw) (h : Hw)
    → (let (key, locked) = posix_irq_lock handler_from_sw h in
        posix_irq_unlock handler_from_sw key locked)
      ≡ (if not h.irq.irqs_locked && any_bit h.irq.irq_status then handler_from_sw h else h)
posix_irq_unlock-posix_irq_lock handler h =
    ap (λ (p : Bool × Hw). posix_irq_unlock handler p.0 p.1) (posix_irq_lock_lem handler h)
    ∙ unlock_to handler h h.irq.irqs_locked
