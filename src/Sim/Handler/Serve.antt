-- ===== src/Sim/Handler/Serve.antt =====
-- The interrupt handler serves everything that may interrupt, and leaves the CPU as it found it.
use g_sierra.Common.{
  ℕ, zero, suc, ◌≤◌, ◌<◌, ◌≡◌, ◌≢◌, refl, ◌∙◌, ap, ap₂, ◌⊎◌, inl, inr, true, false, Bool-cases,
  Option, none, some, [], ◌∷◌, if◌then◌else◌, length, length-set, get_or, Bits, bit, any_bit,
  bits_from, clear_bit, if_either, arith,
}
use g_sierra.Sim.{IrqCtrl}
use g_sierra.Sim.Irq.{
  found, hw_irq_ctrl_get_highest_prio_irq, hw_irq_ctrl_set_cur_prio, hw_irq_ctrl_clear_irq,
}
use g_sierra.Sim.Irq.Priority.{count_bits, bits_from-clear_bit}
use g_sierra.Sim.Irq.Highest.{locked, idle, chosen, hw_irq_ctrl_get_highest_prio_irq_lem}
use g_sierra.Sim.Handler.{
  IsrTableEntry, no_entry, Cpu, Software, returned, run_routine, run_entry, start_irq, end_irq,
  end_if_run, after_direct, vector_to_irq, serve, serve_all, then_leave, leave, enter,
  posix_irq_handler,
}

-- What a routine or the handler leaves of the state of the CPU.
record Keeps (c c' : Cpu) : Type 0 where
  controller : c'.hw.irq ≡ c.hw.irq
  depth : c'.nested ≡ c.nested
  table : c'.irq_vector_table ≡ c.irq_vector_table

-- Routines that leave the interrupt controller, the vector table and the nesting alone.
pub record IsQuiet (sw : Software) : Type 0 where
  pub direct_irq : (f : ℕ) (c : Cpu) → (sw.run_direct f c).1.hw.irq ≡ c.hw.irq
  pub direct_nested : (f : ℕ) (c : Cpu) → (sw.run_direct f c).1.nested ≡ c.nested
  pub direct_table : (f : ℕ) (c : Cpu) → (sw.run_direct f c).1.irq_vector_table ≡ c.irq_vector_table
  pub normal_irq : (f p : ℕ) (c : Cpu) → (sw.run_normal f p c).hw.irq ≡ c.hw.irq
  pub normal_nested : (f p : ℕ) (c : Cpu) → (sw.run_normal f p c).nested ≡ c.nested
  pub normal_table :
      (f p : ℕ) (c : Cpu) → (sw.run_normal f p c).irq_vector_table ≡ c.irq_vector_table

-- Every pending interrupt has a routine.
unfoldable pub IsRegistered : Cpu → Type 0
IsRegistered c =
    (i : ℕ) → bit c.hw.irq.irq_status i ≡ true → (get_or c.irq_vector_table i no_entry).func ≢ none

count-clear_bit :
    (bs : Bits) (i : ℕ) → bit bs i ≡ true → suc (count_bits (clear_bit bs i)) ≡ count_bits bs
count-clear_bit [] i h = cc
count-clear_bit (true ∷ bs) zero h = refl
count-clear_bit (false ∷ bs) zero h = cc
count-clear_bit (true ∷ bs) (suc i) h = ap suc (count-clear_bit bs i h)
count-clear_bit (false ∷ bs) (suc i) h = count-clear_bit bs i h

bit-clear_bit : (bs : Bits) (i j : ℕ) → bit (clear_bit bs i) j ≡ true → bit bs j ≡ true
bit-clear_bit [] i j h = h
bit-clear_bit (b ∷ bs) zero zero h = cc
bit-clear_bit (b ∷ bs) zero (suc j) h = h
bit-clear_bit (b ∷ bs) (suc i) zero h = h
bit-clear_bit (b ∷ bs) (suc i) (suc j) h = bit-clear_bit bs i j h

-- A round of the loop.
module _ (sw : Software) where
  pub serve_all-none :
      (fuel : ℕ) (c : Cpu)
      → hw_irq_ctrl_get_highest_prio_irq c.hw.irq ≡ found none
      → serve_all sw (suc fuel) c ≡ returned c
  unfolding serve_all
  serve_all-none fuel c e = rw (serve_all, e) refl

  pub serve_all-some :
      (fuel i : ℕ) (c c' : Cpu)
      → hw_irq_ctrl_get_highest_prio_irq c.hw.irq ≡ found (some i)
      → serve sw i c ≡ some c'
      → serve_all sw (suc fuel) c ≡ serve_all sw fuel c'
  unfolding serve_all
  serve_all-some fuel i c c' e s = rw (serve_all, e, s) refl

module _ (sw : Software) (quiet : IsQuiet sw) where
  run_routine-Keeps : (entry : IsrTableEntry) (f : ℕ) (c : Cpu) → Keeps c (run_routine sw entry f c)
  run_routine-Keeps entry f c =
      if_either (Keeps c) entry.direct (after_direct sw (sw.run_direct f c))
        (record (sw.run_normal f entry.param c) { may_swap = true })
        (record {
          controller = quiet.direct_irq f c;
          depth = quiet.direct_nested f c;
          table = quiet.direct_table f c;
        })
        (record {
          controller = quiet.normal_irq f entry.param c;
          depth = quiet.normal_nested f entry.param c;
          table = quiet.normal_table f entry.param c;
        })

  run_entry-Keeps :
      (o : Option ℕ) (entry : IsrTableEntry) (c : Cpu)
      → o ≢ none
      → (c' : Cpu) × (run_entry sw o entry c ≡ some c') × Keeps c c'
  run_entry-Keeps none entry c known = absurd (known refl)
  run_entry-Keeps (some f) entry c known =
      (run_routine sw entry f c, refl, run_routine-Keeps entry f c)

  -- The interrupt `i` was served: it is not pending any more.
  record IsServed (i : ℕ) (c c' : Cpu) : Type 0 where
    cleared : c'.hw.irq ≡ hw_irq_ctrl_clear_irq i c.hw.irq
    depth : c'.nested ≡ c.nested
    table : c'.irq_vector_table ≡ c.irq_vector_table
    current : c'.currently_running_irq ≡ c.currently_running_irq

  serve-IsServed :
      (i : ℕ) (c : Cpu)
      → (get_or c.irq_vector_table i no_entry).func ≢ none
      → (c' : Cpu) × (serve sw i c ≡ some c') × IsServed i c c'
  unfolding serve vector_to_irq hw_irq_ctrl_set_cur_prio hw_irq_ctrl_clear_irq
  serve-IsServed i c known =
      let entry = get_or c.irq_vector_table i no_entry in
      let (c', runs, keeps) = run_entry-Keeps entry.func entry (start_irq sw i c) known in
      (
        end_irq sw c c',
        ap (end_if_run sw c) runs,
        record {
          cleared = ap (hw_irq_ctrl_set_cur_prio c.hw.irq.currently_running_prio) keeps.controller;
          depth = keeps.depth;
          table = keeps.table;
          current = refl;
        },
      )

  -- The loop has ended in `c'`: nothing that is pending may interrupt, and the priority that runs,
  -- the interrupt that runs and the nesting are those of `c`.
  pub record IsDone (c c' : Cpu) : Type 0 where
    pub none_left : hw_irq_ctrl_get_highest_prio_irq c'.hw.irq ≡ found none
    pub same_prio : c'.hw.irq.currently_running_prio ≡ c.hw.irq.currently_running_prio
    pub same_irq : c'.currently_running_irq ≡ c.currently_running_irq
    pub same_depth : c'.nested ≡ c.nested

  served_then-IsDone : {i : ℕ} {c c' d : Cpu} → IsServed i c c' → IsDone c' d → IsDone c d
  unfolding hw_irq_ctrl_clear_irq
  served_then-IsDone s d = record {
    none_left = d.none_left;
    same_prio = d.same_prio ∙ ap (λ (i : IrqCtrl). i.currently_running_prio) s.cleared;
    same_irq = d.same_irq ∙ s.current;
    same_depth = d.same_depth ∙ s.depth;
  }

  -- What the loop needs: fuel, sets of 64 bits, and routines.
  record IsReady (fuel : ℕ) (c : Cpu) : Type 0 where
    enough : count_bits c.hw.irq.irq_status < fuel
    size : length c.hw.irq.irq_status ≤ 64
    low : any_bit (bits_from 32 c.hw.irq.irq_status) ≡ false
    prio : c.hw.irq.currently_running_prio ≤ 256
    registered : IsRegistered c

  served-IsReady :
      (fuel i : ℕ) (c c' : Cpu)
      → bit c.hw.irq.irq_status i ≡ true
      → IsServed i c c'
      → IsReady (suc fuel) c
      → IsReady fuel c'
  unfolding hw_irq_ctrl_clear_irq IsRegistered
  served-IsReady fuel i c c' pending s r =
      let status : c'.hw.irq.irq_status ≡ clear_bit c.hw.irq.irq_status i =
        ap (λ (x : IrqCtrl). x.irq_status) s.cleared in
      record {
        enough = rw status (omega (arith, r.enough, count-clear_bit c.hw.irq.irq_status i pending));
        size = rw status (omega (arith, r.size, length-set c.hw.irq.irq_status i false));
        low = rw status (bits_from-clear_bit 32 c.hw.irq.irq_status i r.low);
        prio = omega (arith, r.prio, ap (λ (x : IrqCtrl). x.currently_running_prio) s.cleared);
        registered = λ j h. rw s.table (r.registered j (bit-clear_bit _ i j (rw status at h)));
      }

  serve_all_lem :
      (fuel : ℕ) (c : Cpu)
      → c.hw.irq.irqs_locked ≡ false
      → IsReady fuel c
      → (d : Cpu) × (serve_all sw fuel c ≡ returned d) × IsDone c d
  unfolding hw_irq_ctrl_clear_irq IsRegistered
  serve_all_lem zero c open_ r = absurd (omega (arith, r.enough))
  serve_all_lem (suc fuel) c open_ r =
      elim (hw_irq_ctrl_get_highest_prio_irq_lem c.hw.irq r.size r.low r.prio) [
        | locked l e ↦ absurd (cc)
        | idle u e all ↦ (
          c,
          serve_all-none sw fuel c e,
          record { none_left = e; same_prio = refl; same_irq = refl; same_depth = refl },
        )
        | chosen i u e highest ↦
            let (c', runs, served) = serve-IsServed i c (r.registered i highest.pending) in
            let (d, ends, done) =
              serve_all_lem fuel c' (ap (λ (x : IrqCtrl). x.irqs_locked) served.cleared ∙ open_)
                (served-IsReady fuel i c c' highest.pending served r) in
            (d, serve_all-some sw fuel i c c' e runs ∙ ends, served_then-IsDone served done)
      ]

  -- If the registered routines leave the controller, the table and the nesting alone, each pending
  -- interrupt has one, the status has at most 64 bits, of which none from the 32nd on is set, and the
  -- running priority is at most 256, `posix_irq_handler` ends, with fuel for more rounds than
  -- interrupts are pending. Where interrupts are locked, it changes nothing. Where they are not,
  -- nothing that is pending may interrupt any more, and behind the loop the running priority and
  -- interrupt are those from before and the nesting is one deeper, until `leave` takes it back.
  pub posix_irq_handler_lem :
      (fuel : ℕ) (c : Cpu)
      → count_bits c.hw.irq.irq_status < fuel
      → length c.hw.irq.irq_status ≤ 64
      → any_bit (bits_from 32 c.hw.irq.irq_status) ≡ false
      → c.hw.irq.currently_running_prio ≤ 256
      → IsRegistered c
      → ((c.hw.irq.irqs_locked ≡ true) × (posix_irq_handler sw fuel c ≡ returned c))
        ⊎ ((c.hw.irq.irqs_locked ≡ false)
            × ((d : Cpu) × (posix_irq_handler sw fuel c ≡ returned (leave sw d))
                × IsDone (enter sw c) d))
  unfolding posix_irq_handler enter IsRegistered
  posix_irq_handler_lem fuel c enough size low prio registered =
      elim (Bool-cases c.hw.irq.irqs_locked) [
        | inl l ↦ inl (l, rw (posix_irq_handler, l) refl)
        | inr u ↦
            let (d, ends, done) = serve_all_lem fuel (enter sw c) u (record {
              enough = enough;
              size = size;
              low = low;
              prio = prio;
              registered = registered;
            }) in
            inr (u, (d, ap₂ (λ b o. if b then returned c else then_leave sw o) u ends, done))
      ]
