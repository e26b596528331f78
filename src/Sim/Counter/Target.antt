-- ===== src/Sim/Counter/Target.antt =====
-- The counter raises its interrupt when it reaches the target, and not before.
use g_sierra.Common.{ℕ, zero, suc, ◌+◌, ◌^◌, ◌<◌, ◌≡◌, refl, ◌∙◌, ap, true, set_bit, arith}
use g_sierra.Sim.{Hw, IrqCtrl, counter_event_irq, hwm_find_next_timer, consider_timer}
use g_sierra.Sim.Irq.{hw_irq_ctrl_irq_raise_prefix, hw_irq_ctrl_set_irq}
use g_sierra.Sim.Counter.{
  count_up, hw_counter_triggered, hw_counter_get_value, hw_counter_set_target,
}

abbrev pub triggers : ℕ → Hw → Hw
triggers zero h = h
triggers (suc n) h = hw_counter_triggered (triggers n h)

-- The counter runs towards the target `t`, has the value `v`, and left the controller `c` alone.
record Counting (t v : ℕ) (c : IrqCtrl) (h : Hw) : Type 0 where
  running : h.counter.counter_running ≡ true
  target : h.counter.counter_target ≡ t
  value : h.counter.counter_value ≡ v
  untouched : h.irq ≡ c

step :
    (t v : ℕ) (c : IrqCtrl) (h : Hw)
    → suc v < t
    → t < 2 ^ 64
    → Counting t v c h
    → Counting t (suc v) c (hw_counter_triggered h)
unfolding hw_counter_triggered count_up
step t v c h lt bound p = record {
  running = ground (arith, p.running, p.target, p.value);
  target = ground (arith, p.running, p.target, p.value);
  value = ground (arith, p.running, p.target, p.value);
  untouched = ground (arith, p.running, p.target, p.value, p.untouched);
}

before :
    (t v : ℕ) (c : IrqCtrl) (h : Hw) (n : ℕ)
    → v + n < t
    → t < 2 ^ 64
    → Counting t v c h
    → Counting t (v + n) c (triggers n h)
before t v c h zero lt bound p = let same : v + 0 ≡ v = omega arith in rw same p
before t v c h (suc n) lt bound p =
    let same : v + suc n ≡ suc (v + n) = omega arith in
    rw same
      (step t (v + n) c (triggers n h) (omega arith) bound (before t v c h n (omega arith) bound p))

reached :
    (t : ℕ) (c : IrqCtrl) (h : Hw)
    → suc (h.counter.counter_value) ≡ t
    → t < 2 ^ 64
    → h.counter.counter_running ≡ true
    → h.counter.counter_target ≡ t
    → (hw_counter_triggered h).irq.irq_premask ≡ set_bit h.irq.irq_premask counter_event_irq
unfolding hw_counter_triggered count_up hw_irq_ctrl_set_irq hw_irq_ctrl_irq_raise_prefix
    hwm_find_next_timer consider_timer
reached t c h e bound on at = ground arith

-- A running counter that stands `n + 1` below a target of 64 bits leaves the interrupt controller
-- alone for `n` triggers, counts each of them, and raises its interrupt at the next.
pub triggers-hw_counter_set_target :
    (n target : ℕ) (h : Hw)
    → h.counter.counter_running ≡ true
    → h.counter.counter_value + suc n ≡ target
    → target < 2 ^ 64
    → (let aimed = record h { counter = hw_counter_set_target target h.counter } in
        ((triggers n aimed).irq ≡ h.irq)
        × (hw_counter_get_value (triggers n aimed).counter ≡ h.counter.counter_value + n)
        × ((triggers (suc n) aimed).irq.irq_premask ≡ set_bit h.irq.irq_premask counter_event_irq))
unfolding hw_counter_set_target hw_counter_get_value
triggers-hw_counter_set_target n target h on e bound =
    let aimed = record h { counter = hw_counter_set_target target h.counter } in
    let p =
      before target h.counter.counter_value h.irq aimed n (omega arith) bound
        (record { running = on; target = refl; value = refl; untouched = refl }) in
    (
      p.untouched,
      p.value,
      reached target h.irq (triggers n aimed) (omega (arith, p.value)) bound p.running p.target
          ∙ ap (λ (c : IrqCtrl). set_bit c.irq_premask counter_event_irq) p.untouched,
    )
