-- ===== src/Sim/Irq/Priority.antt =====
-- The search for the interrupt to serve finds the right one, and ends.
use g_sierra.Common.{
  some, ℕ, zero, suc, ◌+◌, ◌≤◌, ◌<◌, ◌≡◌, refl, sym, ◌∙◌, Bool, true, false, ◌⊎◌, inl, inr, ap,
  take, bits_from, [], ◌∷◌, if◌then◌else◌, Bool-cases, Bits, bit, clear_bit, any_bit, lowest_bit,
  arith,
}
use g_sierra.Sim.{IrqCtrl}
use g_sierra.Sim.Irq.{hw_irq_ctrl_get_prio, Winner, contest, search_status, found}

-- The number of bits that are set.
abbrev pub count_bits : Bits → ℕ
count_bits [] = 0
count_bits (b ∷ bs) = if b then suc (count_bits bs) else count_bits bs

any_bit-clear_bit : (bs : Bits) (i : ℕ) → any_bit bs ≡ false → any_bit (clear_bit bs i) ≡ false
any_bit-clear_bit [] i h = refl
any_bit-clear_bit (true ∷ bs) i h = cc
any_bit-clear_bit (false ∷ bs) zero h = h
any_bit-clear_bit (false ∷ bs) (suc i) h = any_bit-clear_bit bs i h

-- Clearing a bit leaves the bits from `n` on clear.
pub bits_from-clear_bit :
    (n : ℕ) (bs : Bits) (i : ℕ)
    → any_bit (bits_from n bs) ≡ false
    → any_bit (bits_from n (clear_bit bs i)) ≡ false
bits_from-clear_bit zero bs i h = any_bit-clear_bit bs i h
bits_from-clear_bit (suc n) [] i h = refl
bits_from-clear_bit (suc n) (b ∷ bs) zero h = h
bits_from-clear_bit (suc n) (b ∷ bs) (suc i) h = bits_from-clear_bit n bs i h

-- A set without bits from `n` on has its lowest bit among the first `n`.
low_bits_all :
    (n : ℕ) (bs : Bits)
    → any_bit (bits_from n bs) ≡ false
    → any_bit bs ≡ true
    → (any_bit (take n bs) ≡ true) × (lowest_bit (take n bs) ≡ lowest_bit bs)
low_bits_all zero bs h more = cc
low_bits_all (suc n) [] h more = cc
low_bits_all (suc n) (true ∷ bs) h more = (refl, refl)
low_bits_all (suc n) (false ∷ bs) h more =
    let (some_, same) = low_bits_all n bs h more in (some_, ap suc same)

module _ (c : IrqCtrl) where
  -- The interrupts compete in the order of their numbers; `i` is that of the first bit.
  pub scan : ℕ → Bits → Winner → Winner
  scan i [] w = w
  scan i (b ∷ bs) w = scan (i + 1) bs (if b then contest c i w else w)

  scan_none : (i : ℕ) (bs : Bits) (w : Winner) → any_bit bs ≡ false → scan i bs w ≡ w
  unfolding scan
  scan_none i [] w h = refl
  scan_none i (true ∷ bs) w h = cc
  scan_none i (false ∷ bs) w h = scan_none (i + 1) bs w h

  scan_lowest :
      (i j : ℕ) (bs : Bits) (w : Winner)
      → any_bit bs ≡ true
      → j ≡ i + lowest_bit bs
      → scan i (clear_bit bs (lowest_bit bs)) (contest c j w) ≡ scan i bs w
  unfolding scan
  scan_lowest i j [] w h e = cc
  scan_lowest i j (true ∷ bs) w h e = let same : j ≡ i = omega arith in rw same
  scan_lowest i j (false ∷ bs) w h e = scan_lowest (i + 1) j bs w h (omega arith)

  count-clear :
      (bs : Bits)
      → any_bit bs ≡ true
      → suc (count_bits (clear_bit bs (lowest_bit bs))) ≡ count_bits bs
  count-clear [] h = cc
  count-clear (true ∷ bs) h = refl
  count-clear (false ∷ bs) h = count-clear bs h

  pub search_status-eq-scan :
      (fuel : ℕ) (bs : Bits) (w : Winner)
      → count_bits bs < fuel
      → any_bit (bits_from 32 bs) ≡ false
      → search_status fuel c bs w ≡ found (scan 0 bs w)
  unfolding search_status
  search_status-eq-scan zero bs w h no_high = absurd (omega arith)
  search_status-eq-scan (suc fuel) bs w h no_high = elim (Bool-cases (any_bit bs)) [
    | inl more ↦
        let (some_low, same) = low_bits_all 32 bs no_high more in
        rw (more, some_low, same, ← scan_lowest 0 (lowest_bit bs) bs w more (omega arith))
          (search_status-eq-scan fuel (clear_bit bs (lowest_bit bs)) (contest c (lowest_bit bs) w)
            (omega (arith, count-clear bs more))
            (bits_from-clear_bit 32 bs (lowest_bit bs) no_high))
    | inr over ↦ rw (over, scan_none 0 bs w over)
  ]

  abbrev pub prio : ℕ → ℕ
  prio j = hw_irq_ctrl_get_prio j c

  abbrev pub now : ℕ
  now = c.currently_running_prio

  contest_bound :
      (i : ℕ) (w : Winner)
      → ((contest c i w).winner_prio ≤ w.winner_prio)
        × (prio i < now → (contest c i w).winner_prio ≤ prio i)
  unfolding contest
  contest_bound i w = ground arith

  scan-le : (i : ℕ) (bs : Bits) (w : Winner) → (scan i bs w).winner_prio ≤ w.winner_prio
  unfolding scan
  scan-le i [] w = omega arith
  scan-le i (true ∷ bs) w = omega (arith, scan-le (i + 1) bs (contest c i w), contest_bound i w)
  scan-le i (false ∷ bs) w = scan-le (i + 1) bs w

  pub scan_best :
      (i k j : ℕ) (bs : Bits) (w : Winner)
      → j ≡ i + k
      → bit bs k ≡ true
      → prio j < now
      → (scan i bs w).winner_prio ≤ prio j
  unfolding scan
  scan_best i k j [] w e h p = cc
  scan_best i zero j (true ∷ bs) w e h p =
      let same : j ≡ i = omega arith in
      rw same
        (omega (arith, scan-le (i + 1) bs (contest c i w), (contest_bound i w).1 (rw same at p)))
  scan_best i zero j (false ∷ bs) w e h p = cc
  scan_best i (suc k) j (true ∷ bs) w e h p =
      scan_best (i + 1) k j bs (contest c i w) (omega arith) h p
  scan_best i (suc k) j (false ∷ bs) w e h p = scan_best (i + 1) k j bs w (omega arith) h p

  -- `w'` was found among the bits: its interrupt is set, it may interrupt what runs, and every other
  -- one that may, with a lower number, has a priority number that is higher.
  pub record IsFound (i : ℕ) (bs : Bits) (w w' : Winner) : Type 0 where
    pub at : ℕ
    pub index : ℕ
    pub place : index ≡ i + at
    pub winner : w'.winner ≡ some index
    pub pending : bit bs at ≡ true
    pub value : prio index ≡ w'.winner_prio
    pub eligible : prio index < now
    pub better : w'.winner_prio < w.winner_prio
    pub first :
        (k j : ℕ) → j ≡ i + k → k < at → bit bs k ≡ true → prio j < now → w'.winner_prio < prio j

  contest_cases :
      (i : ℕ) (w : Winner)
      → (contest c i w ≡ w)
        ⊎ (((contest c i w).winner ≡ some i)
            × ((contest c i w).winner_prio ≡ prio i)
            × (prio i < now)
            × (prio i < w.winner_prio))
  unfolding contest
  contest_cases i w = ground arith

  IsFound-shift :
      (i : ℕ) (b : Bool) (bs : Bits) (w w₁ w' : Winner)
      → w₁.winner_prio ≤ w.winner_prio
      → (b ≡ true → prio i < now → w₁.winner_prio ≤ prio i)
      → IsFound (i + 1) bs w₁ w'
      → IsFound i (b ∷ bs) w w'
  IsFound-shift i b bs w w₁ w' le at_head f = record {
    at = suc f.at;
    index = f.index;
    place = omega (arith, f.place);
    winner = f.winner;
    pending = f.pending;
    value = f.value;
    eligible = f.eligible;
    better = omega (arith, f.better);
    first = earlier;
  }
    where
      earlier :
          (k j : ℕ)
          → j ≡ i + k
          → k < suc f.at
          → bit (b ∷ bs) k ≡ true
          → prio j < now
          → w'.winner_prio < prio j
      earlier zero j e lt h p =
          let same : j ≡ i = omega arith in
          rw same (omega (arith, f.better, at_head h (rw same at p)))
      earlier (suc k) j e lt h p = f.first k j (omega arith) (omega arith) h p

  pub scan-IsFound :
      (i : ℕ) (bs : Bits) (w : Winner) → (scan i bs w ≡ w) ⊎ IsFound i bs w (scan i bs w)
  unfolding scan
  scan-IsFound i [] w = inl refl
  scan-IsFound i (false ∷ bs) w = elim (scan-IsFound (i + 1) bs w) [
    | inl e ↦ inl e
    | inr f ↦
        inr (IsFound-shift i false bs w w (scan (i + 1) bs w) (omega arith) (λ h. absurd (cc)) f)
  ]
  scan-IsFound i (true ∷ bs) w = elim (scan-IsFound (i + 1) bs (contest c i w)) [
    | inl e ↦ elim (contest_cases i w) [
      | inl same ↦ inl (e ∙ same)
      | inr new ↦ inr (record {
        at = 0;
        index = i;
        place = omega arith;
        winner = rw e new.0;
        pending = refl;
        value = rw e (sym new.1);
        eligible = new.2;
        better = rw e (omega arith);
        first = λ k j p lt. absurd (omega arith);
      })
    ]
    | inr f ↦ inr (
        IsFound-shift i true bs w (contest c i w) (scan (i + 1) bs (contest c i w))
          (contest_bound i w).0 (λ h. (contest_bound i w).1) f)
  ]
