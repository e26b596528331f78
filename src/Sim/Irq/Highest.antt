-- ===== src/Sim/Irq/Highest.antt =====
-- The interrupt that is found is the one to serve.
use g_sierra.Common.{
  if_false, ℕ, ◌≤◌, ◌<◌, ◌≡◌, refl, ◌∙◌, ap, true, false, inl, inr, Option, none, some, [], ◌∷◌,
  ltb, ltb→lt, Bool-cases, length, Bits, bit, any_bit, bits_from, arith,
}
use g_sierra.Sim.{IrqCtrl}
use g_sierra.Sim.Irq.{Search, found, Winner, no_winner, result_of, hw_irq_ctrl_get_highest_prio_irq}
use g_sierra.Sim.Irq.Priority.{
  scan, prio, now, scan_best, IsFound, scan-IsFound, search_status-eq-scan, count_bits,
}

module _ (c : IrqCtrl) where
  -- Interrupt `i` is pending and may interrupt what runs; no pending one has a higher priority (a
  -- lower number), and those with its priority have higher indices.
  pub record IsHighest (i : ℕ) : Type 0 where
    pub pending : bit c.irq_status i ≡ true
    pub eligible : prio c i < now c
    pub best : (j : ℕ) → bit c.irq_status j ≡ true → prio c i ≤ prio c j
    pub first : (j : ℕ) → bit c.irq_status j ≡ true → j < i → prio c i < prio c j

  -- Nothing is found because interrupts are locked or no pending one has a higher priority than what
  -- runs; otherwise the highest is found.
  pub data Choice (result : Search (Option ℕ)) : Type 0 where
    locked : c.irqs_locked ≡ true → result ≡ found none → Choice result
    idle :
        c.irqs_locked ≡ false
        → result ≡ found none
        → ((j : ℕ) → bit c.irq_status j ≡ true → now c ≤ prio c j)
        → Choice result
    chosen : (i : ℕ) → c.irqs_locked ≡ false → result ≡ found (some i) → IsHighest i → Choice result

  count-le : (bs : Bits) → count_bits bs ≤ length bs
  count-le [] = omega arith
  count-le (true ∷ bs) = omega (arith, count-le bs)
  count-le (false ∷ bs) = omega (arith, count-le bs)

  unlocked_result :
      length c.irq_status ≤ 64
      → any_bit (bits_from 32 c.irq_status) ≡ false
      → c.irqs_locked ≡ false
      → hw_irq_ctrl_get_highest_prio_irq c ≡ found (scan c 0 c.irq_status no_winner).winner
  unfolding hw_irq_ctrl_get_highest_prio_irq
  unlocked_result size no_high open_ =
      if_false c.irqs_locked (found none) _ open_
      ∙ ap result_of (
          search_status-eq-scan c 65 c.irq_status no_winner (omega (arith, count-le c.irq_status))
            no_high)

  none_eligible :
      now c ≤ 256
      → scan c 0 c.irq_status no_winner ≡ no_winner
      → (j : ℕ) → bit c.irq_status j ≡ true
      → now c ≤ prio c j
  none_eligible small same j h = elim (Bool-cases (ltb (prio c j) (now c))) [
    | inl p ↦ absurd (
        omega (
          arith,
          ap (λ (w : Winner). w.winner_prio) same,
          scan_best c 0 j j c.irq_status no_winner (omega arith) h (ltb→lt _ _ p),
          ltb→lt _ _ p,
        ))
    | inr p ↦ ground arith
  ]

  found-IsHighest :
      (w' : Winner)
      → scan c 0 c.irq_status no_winner ≡ w'
      → (f : IsFound c 0 c.irq_status no_winner w') → IsHighest f.index
  found-IsHighest w' e f = record {
    pending = let same : f.index ≡ f.at = omega (arith, f.place) in rw same f.pending;
    eligible = f.eligible;
    best = best_of;
    first = first_of_all;
  }
    where
      bound : (j : ℕ) → bit c.irq_status j ≡ true → prio c j < now c → w'.winner_prio ≤ prio c j
      bound j h p = rw (← e) (scan_best c 0 j j c.irq_status no_winner (omega arith) h p)

      best_of : (j : ℕ) → bit c.irq_status j ≡ true → prio c f.index ≤ prio c j
      best_of j h = elim (Bool-cases (ltb (prio c j) (now c))) [
        | inl p ↦ omega (arith, f.value, bound j h (ltb→lt _ _ p))
        | inr p ↦ ground (arith, f.eligible)
      ]

      first_of_all : (j : ℕ) → bit c.irq_status j ≡ true → j < f.index → prio c f.index < prio c j
      first_of_all j h lt = elim (Bool-cases (ltb (prio c j) (now c))) [
        | inl p ↦
            omega
              (arith, f.value, f.first j j (omega arith) (omega (arith, f.place)) h (ltb→lt _ _ p))
        | inr p ↦ ground (arith, f.eligible)
      ]

  -- With a status of at most 64 bits, of which none from the 32nd on is set, and a running priority of
  -- at most 256, `hw_irq_ctrl_get_highest_prio_irq` ends, and finds nothing when interrupts are locked or none that
  -- is pending may interrupt what runs; otherwise it finds a pending interrupt of the highest
  -- priority, the first of these by number.
  pub hw_irq_ctrl_get_highest_prio_irq_lem :
      length c.irq_status ≤ 64
      → any_bit (bits_from 32 c.irq_status) ≡ false
      → now c ≤ 256
      → Choice (hw_irq_ctrl_get_highest_prio_irq c)
  hw_irq_ctrl_get_highest_prio_irq_lem size no_high small = elim (Bool-cases c.irqs_locked) [
    | inl l ↦ locked l (unfold hw_irq_ctrl_get_highest_prio_irq in rw l)
    | inr u ↦ elim (scan-IsFound c 0 c.irq_status no_winner) [
      | inl e ↦
          idle u (unlocked_result size no_high u ∙ ap (λ (w : Winner). found w.winner) e)
            (none_eligible small e)
      | inr f ↦
          chosen f.index u (unlocked_result size no_high u ∙ ap found f.winner)
            (found-IsHighest _ refl f)
    ]
  ]
