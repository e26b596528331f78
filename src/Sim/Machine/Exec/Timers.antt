-- ===== src/Sim/Machine/Exec/Timers.antt =====
-- What the handlers of the events do to the times of the timers.
use g_sierra.Common.{
  ℕ, zero, suc, ◌+◌, ◌≡◌, refl, ◌∙◌, ap, ◌⊎◌, inl, inr, not, ◌||◌, ◌==◌, if◌then◌else◌, if_either,
  if_cases, u64, arith,
}
use g_sierra.Common.Int.{ℤ, pos, negsuc}
use g_sierra.Sim.{
  Hw, TimerModel, consider_timer, hwm_find_next_timer, hwm_get_time, never, timer_tick_irq,
  phony_hard_irq,
}
use g_sierra.Sim.Irq.{hw_irq_ctrl_irq_raise_prefix, hw_irq_ctrl_set_irq}
use g_sierra.Sim.Machine.Next.{prefix_timer}
use g_sierra.Sim.Timer.{
  hwtimer_update_timer, count_tick, ticked, awake, hwtimer_tick_timer_reached,
  hwtimer_awake_timer_reached, hwtimer_timer_reached,
}

-- The controller's timer stays, or is set to the present.
abbrev pub IrqAfter : Hw → Hw → Type 0
IrqAfter h s = (s.irq.irq_ctrl_timer ≡ h.irq.irq_ctrl_timer) ⊎ (s.irq.irq_ctrl_timer ≡ h.simu_time)

-- What an interrupt that is raised leaves.
pub record Raised (h s : Hw) : Type 0 where
  pub timer : s.timer ≡ h.timer
  pub counter : s.counter ≡ h.counter
  pub time : s.simu_time ≡ h.simu_time
  pub irq : IrqAfter h s

find-Raised : (h s : Hw) → Raised h s → Raised h (hwm_find_next_timer s)
unfolding hwm_find_next_timer consider_timer
find-Raised h s r = record {
  timer = ground (arith, r.timer);
  counter = ground (arith, r.counter);
  time = ground (arith, r.time);
  irq = ground (arith, r.irq);
}

pub set_irq-Raised : (i : ℕ) (h : Hw) → Raised h (hw_irq_ctrl_set_irq i h)
unfolding hw_irq_ctrl_set_irq hwm_get_time
set_irq-Raised i h =
    let c = hw_irq_ctrl_irq_raise_prefix i h.irq in
    let timed = record h { irq = record c { irq_ctrl_timer = h.simu_time } } in
    if_either (Raised h) (not c.irqs_locked || c.lock_ignore) (hwm_find_next_timer timed)
      (record h { irq = c })
      (find-Raised h timed (record { timer = refl; counter = refl; time = refl; irq = inr refl }))
      (record { timer = refl; counter = refl; time = refl; irq = inl (prefix_timer i h.irq) })

-- What the timer model does at its time: each of its two timers that stands at it moves on.
pub record TimerReached (h s : Hw) : Type 0 where
  pub awake_after : s.timer.hw_timer_awake_timer ≡ (
      if h.timer.hw_timer_awake_timer == h.timer.hw_timer_timer
      then never
      else h.timer.hw_timer_awake_timer)
  pub tick_after : s.timer.hw_timer_tick_timer ≡ (
      if h.timer.hw_timer_tick_timer == h.timer.hw_timer_timer
      then u64 (h.timer.hw_timer_tick_timer + h.timer.tick_p)
      else h.timer.hw_timer_tick_timer)
  pub period : s.timer.tick_p ≡ h.timer.tick_p
  pub counter : s.counter ≡ h.counter
  pub time : s.simu_time ≡ h.simu_time
  pub irq : IrqAfter h s

-- The first half, for the timer that wakes the CPU.
record Woken (h s : Hw) : Type 0 where
  awake_after : s.timer.hw_timer_awake_timer ≡ (
      if h.timer.hw_timer_awake_timer == h.timer.hw_timer_timer
      then never
      else h.timer.hw_timer_awake_timer)
  tick : s.timer.hw_timer_tick_timer ≡ h.timer.hw_timer_tick_timer
  period : s.timer.tick_p ≡ h.timer.tick_p
  counter : s.counter ≡ h.counter
  time : s.simu_time ≡ h.simu_time
  irq : IrqAfter h s

woken_lem :
    (h : Hw)
    → Woken h (
        if h.timer.hw_timer_awake_timer == h.timer.hw_timer_timer
        then hwtimer_awake_timer_reached h
        else h)
unfolding hwtimer_awake_timer_reached hwtimer_update_timer
woken_lem h =
    let r = set_irq-Raised phony_hard_irq (awake h) in
    if_cases (Woken h) (h.timer.hw_timer_awake_timer == h.timer.hw_timer_timer)
      (hwtimer_awake_timer_reached h) h
      (λ e. record {
        awake_after = ap (λ (t : TimerModel). t.hw_timer_awake_timer) r.timer ∙ rw e refl;
        tick = ap (λ (t : TimerModel). t.hw_timer_tick_timer) r.timer;
        period = ap (λ (t : TimerModel). t.tick_p) r.timer;
        counter = r.counter;
        time = r.time;
        irq = r.irq;
      })
      (λ e. record {
        awake_after = rw e refl;
        tick = refl;
        period = refl;
        counter = refl;
        time = refl;
        irq = inl refl;
      })

-- Counting a tick changes no time of the timer model.
record Counted (h s : Hw) : Type 0 where
  awake_same : s.timer.hw_timer_awake_timer ≡ h.timer.hw_timer_awake_timer
  tick_same : s.timer.hw_timer_tick_timer ≡ h.timer.hw_timer_tick_timer
  period : s.timer.tick_p ≡ h.timer.tick_p
  counter : s.counter ≡ h.counter
  time : s.simu_time ≡ h.simu_time
  irq : IrqAfter h s

Raised-Counted : (h s : Hw) → Raised h s → Counted h s
Raised-Counted h s r = record {
  awake_same = ap (λ (t : TimerModel). t.hw_timer_awake_timer) r.timer;
  tick_same = ap (λ (t : TimerModel). t.hw_timer_tick_timer) r.timer;
  period = ap (λ (t : TimerModel). t.tick_p) r.timer;
  counter = r.counter;
  time = r.time;
  irq = r.irq;
}

count_tick-Counted : (n : ℤ) (h : Hw) → Counted h (count_tick n h)
unfolding count_tick
count_tick-Counted (pos zero) h =
    Raised-Counted h (hw_irq_ctrl_set_irq timer_tick_irq h) (set_irq-Raised timer_tick_irq h)
count_tick-Counted (pos (suc n)) h = record {
  awake_same = refl;
  tick_same = refl;
  period = refl;
  counter = refl;
  time = refl;
  irq = inl refl;
}
count_tick-Counted (negsuc n) h =
    Raised-Counted h (hw_irq_ctrl_set_irq timer_tick_irq h) (set_irq-Raised timer_tick_irq h)

-- The controller's timer, over two steps that take no time.
after_both : (h s r : Hw) → s.simu_time ≡ h.simu_time → IrqAfter h s → IrqAfter s r → IrqAfter h r
after_both h s r e first second = ground (arith, e, first, second)

ticked_then :
    (h s : Hw)
    → h.timer.hw_timer_tick_timer ≡ h.timer.hw_timer_timer
    → Woken h s
    → TimerReached h (hwtimer_tick_timer_reached s)
unfolding hwtimer_tick_timer_reached hwtimer_update_timer
ticked_then h s e w =
    let c = count_tick-Counted s.timer.silent_ticks (ticked s) in
    record {
      awake_after = c.awake_same ∙ w.awake_after;
      tick_after = ground (arith, c.tick_same, w.tick, w.period, e);
      period = c.period ∙ w.period;
      counter = c.counter ∙ w.counter;
      time = c.time ∙ w.time;
      irq = after_both h s (hwtimer_tick_timer_reached s) w.time w.irq c.irq;
    }

pub hwtimer_timer_reached_lem : (h : Hw) → TimerReached h (hwtimer_timer_reached h)
unfolding hwtimer_timer_reached
hwtimer_timer_reached_lem h =
    let s =
      if h.timer.hw_timer_awake_timer == h.timer.hw_timer_timer
      then hwtimer_awake_timer_reached h
      else h in
    let w : Woken h s = woken_lem h in
    if_cases (TimerReached h) (s.timer.hw_timer_tick_timer == h.timer.hw_timer_timer)
      (hwtimer_tick_timer_reached s) s (λ e. ticked_then h s (ground (arith, e, w.tick)) w)
      (λ e. record {
        awake_after = w.awake_after;
        tick_after = ground (arith, e, w.tick);
        period = w.period;
        counter = w.counter;
        time = w.time;
        irq = w.irq;
      })
