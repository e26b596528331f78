-- ===== src/Sim/Irq.antt =====
-- irq_ctrl.c: the interrupt controller. `interrupt_raised` is the `posix_interrupt_raised` of the
-- SoC, which lets the software run until it is idle again; `handler_from_sw` is
-- `posix_irq_handler_im_from_sw`.
pub mod Priority
pub mod Highest
pub mod Pending
pub mod Enable
use g_sierra.Common.{
  ℕ, zero, suc, ◌+◌, Bool, true, false, not, ◌&&◌, ◌||◌, Option, none, some, List, ltb, ◌==◌,
  if◌then◌else◌, replicate, get_or, set, u8, Bits, no_bits, bit, set_bit, clear_bit, any_bit,
  and_not, bits_from, lowest_bit, take,
}
use g_sierra.Sim.{Hw, IrqCtrl, n_irqs, never, phony_hard_irq, hwm_find_next_timer, hwm_get_time}

unfoldable pub hw_irq_ctrl_init : IrqCtrl → IrqCtrl
hw_irq_ctrl_init c = record c {
  irq_mask = no_bits;
  irq_premask = no_bits;
  irqs_locked = false;
  lock_ignore = false;
  irq_prio = replicate n_irqs 255;
}

unfoldable pub hw_irq_ctrl_set_cur_prio : ℕ → IrqCtrl → IrqCtrl
hw_irq_ctrl_set_cur_prio new c = record c { currently_running_prio = new }

unfoldable pub hw_irq_ctrl_prio_set : ℕ → ℕ → IrqCtrl → IrqCtrl
hw_irq_ctrl_prio_set irq prio c = record c { irq_prio = set c.irq_prio irq (u8 prio) }

-- For one of the 32 interrupts; the search asks for no other.
unfoldable pub hw_irq_ctrl_get_prio : ℕ → IrqCtrl → ℕ
hw_irq_ctrl_get_prio irq c = get_or c.irq_prio irq 0

-- The best interrupt so far, and its priority; the variables `winner` (nothing for -1) and
-- `winner_prio` of the search.
pub record Winner : Type 0 where
  pub winner : Option ℕ
  pub winner_prio : ℕ

unfoldable pub contest : IrqCtrl → ℕ → Winner → Winner
contest c irq_nbr w =
    if ltb (hw_irq_ctrl_get_prio irq_nbr c) w.winner_prio
      && ltb (hw_irq_ctrl_get_prio irq_nbr c) c.currently_running_prio
    then record { winner = some irq_nbr; winner_prio = hw_irq_ctrl_get_prio irq_nbr c }
    else w

-- How a search ends: with a result, with a read outside `irq_prio`, or without fuel.
pub data Search (A : Type 0) : Type 0 where
  found : A → Search A
  search_outside search_unfinished : Search A

-- The `while` loop, on fuel: it takes the lowest bit that is set, clears it, and lets it compete.
-- `find_lsb_set` takes a `uint32_t`: if the low 32 bits are clear it returns 0, and the shift and the
-- index of `irq_prio` are -1.
unfoldable pub search_status : ℕ → IrqCtrl → Bits → Winner → Search Winner
search_status zero c hw_irq_status w = search_unfinished
search_status (suc fuel) c hw_irq_status w =
    let low = take 32 hw_irq_status in
    let irq_nbr = lowest_bit low in
    let rest = search_status fuel c (clear_bit hw_irq_status irq_nbr) (contest c irq_nbr w) in
    if any_bit hw_irq_status then (if any_bit low then rest else search_outside) else found w

abbrev pub no_winner : Winner
no_winner = record { winner = none; winner_prio = 256 }

abbrev pub result_of : Search Winner → Search (Option ℕ)
result_of (found w) = found w.winner
result_of search_outside = search_outside
result_of search_unfinished = search_unfinished

-- The number that is found is nothing for -1. A round takes one of 64 bits, so 65 rounds are enough.
unfoldable pub hw_irq_ctrl_get_highest_prio_irq : IrqCtrl → Search (Option ℕ)
hw_irq_ctrl_get_highest_prio_irq c =
    if c.irqs_locked then found none else result_of (search_status 65 c c.irq_status no_winner)

unfoldable pub hw_irq_ctrl_clear_all_enabled_irqs : IrqCtrl → IrqCtrl
hw_irq_ctrl_clear_all_enabled_irqs c = record c {
  irq_status = no_bits;
  irq_premask = and_not c.irq_premask c.irq_mask;
}

unfoldable pub hw_irq_ctrl_clear_all_irqs : IrqCtrl → IrqCtrl
hw_irq_ctrl_clear_all_irqs c = record c { irq_status = no_bits; irq_premask = no_bits }

unfoldable pub hw_irq_ctrl_disable_irq : ℕ → IrqCtrl → IrqCtrl
hw_irq_ctrl_disable_irq irq c = record c { irq_mask = clear_bit c.irq_mask irq }

unfoldable pub hw_irq_ctrl_is_irq_enabled : ℕ → IrqCtrl → Bool
hw_irq_ctrl_is_irq_enabled irq c = bit c.irq_mask irq

unfoldable pub hw_irq_ctrl_clear_irq : ℕ → IrqCtrl → IrqCtrl
hw_irq_ctrl_clear_irq irq c = record c {
  irq_status = clear_bit c.irq_status irq;
  irq_premask = clear_bit c.irq_premask irq;
}

-- `irq_mask & (1 << irq)`. The 1 is an `int`: at 31 the shift gives the smallest `int`, which is
-- extended to the bits 31 to 63.
abbrev pub mask_test : Bits → ℕ → Bool
mask_test mask irq = if irq == 31 then any_bit (bits_from 31 mask) else bit mask irq

unfoldable pub hw_irq_ctrl_irq_raise_prefix : ℕ → IrqCtrl → IrqCtrl
hw_irq_ctrl_irq_raise_prefix irq c =
    if ltb irq n_irqs
    then record c {
      irq_premask = set_bit c.irq_premask irq;
      irq_status = if mask_test c.irq_mask irq then set_bit c.irq_status irq else c.irq_status;
    }
    else if irq == phony_hard_irq
    then record c { lock_ignore = true }
    else c

-- The interrupt is handed to the CPU one step later, by the controller's own timer.
unfoldable pub hw_irq_ctrl_set_irq : ℕ → Hw → Hw
unfolding hw_irq_ctrl_irq_raise_prefix hwm_find_next_timer hwm_get_time
hw_irq_ctrl_set_irq irq h =
    let c = hw_irq_ctrl_irq_raise_prefix irq h.irq in
    if not c.irqs_locked || c.lock_ignore
    then hwm_find_next_timer (record h { irq = record c { irq_ctrl_timer = hwm_get_time h } })
    else record h { irq = c }

module _ (interrupt_raised : Hw → Hw) where
  unfoldable pub irq_raising_from_hw_now : Hw → Hw
  irq_raising_from_hw_now h =
      if not h.irq.irqs_locked || h.irq.lock_ignore
      then interrupt_raised (record h { irq = record h.irq { lock_ignore = false } })
      else h

  unfoldable pub hw_irq_ctrl_raise_im : ℕ → Hw → Hw
  unfolding irq_raising_from_hw_now hw_irq_ctrl_irq_raise_prefix
  hw_irq_ctrl_raise_im irq h =
      irq_raising_from_hw_now (record h { irq = hw_irq_ctrl_irq_raise_prefix irq h.irq })

  unfoldable pub hw_irq_ctrl_timer_triggered : Hw → Hw
  unfolding irq_raising_from_hw_now
  hw_irq_ctrl_timer_triggered h =
      irq_raising_from_hw_now (record h { irq = record h.irq { irq_ctrl_timer = never } })

-- The two calls that may start the handler at their end, for a handler with any kind of result;
-- `done` is the return without it.
module _ {ℓ} {R : Type ℓ} (handler_from_sw done : Hw → R) where
  unfoldable pub raise_im_then : ℕ → Hw → R
  unfolding hw_irq_ctrl_irq_raise_prefix
  raise_im_then irq h =
      let h' = record h { irq = hw_irq_ctrl_irq_raise_prefix irq h.irq } in
      if not h'.irq.irqs_locked then handler_from_sw h' else done h'

  unfoldable pub enable_then : ℕ → Hw → R
  unfolding raise_im_then
  enable_then irq h =
      let h' = record h { irq = record h.irq { irq_mask = set_bit h.irq.irq_mask irq } } in
      if bit h'.irq.irq_premask irq then raise_im_then irq h' else done h'

abbrev returns : Hw → Hw
returns h = h

module _ (handler_from_sw : Hw → Hw) where
  unfoldable pub hw_irq_ctrl_raise_im_from_sw : ℕ → Hw → Hw
  unfolding raise_im_then
  hw_irq_ctrl_raise_im_from_sw irq h = raise_im_then handler_from_sw returns irq h

  unfoldable pub hw_irq_ctrl_enable_irq : ℕ → Hw → Hw
  unfolding enable_then
  hw_irq_ctrl_enable_irq irq h = enable_then handler_from_sw returns irq h

  -- The previous lock, and the state afterwards.
  unfoldable pub hw_irq_ctrl_change_lock : Bool → Hw → Bool × Hw
  hw_irq_ctrl_change_lock new_lock h =
      let h' = record h { irq = record h.irq { irqs_locked = new_lock } } in
      (
        h.irq.irqs_locked,
        if h.irq.irqs_locked && not new_lock && any_bit h'.irq.irq_status
            then handler_from_sw h'
            else h',
      )
