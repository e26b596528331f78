-- ===== src/Sim/Machine/Sound.antt =====
-- What holds of every state that the board reaches.
use g_sierra.Common.{
  ℕ, ◌≤◌, ◌≡◌, ◌≢◌, refl, ◌∙◌, ap, List, [], ◌∷◌, if_either, ltb, not, ◌||◌, no_bits, arith,
}
use g_sierra.Sim.{
  Hw, IrqCtrl, TimerIndex, hwtimer, irqcnt, hw_counter, no_timer, hwm_find_next_timer,
}
use g_sierra.Sim.Irq.{hw_irq_ctrl_init, hw_irq_ctrl_timer_triggered}
use g_sierra.Sim.Irq.Pending.{within, IsConsistent}
use g_sierra.Sim.Timer.{
  hwtimer_init, hwtimer_timer_reached, hwtimer_set_real_time_mode, hwtimer_reset_rtc,
  hwtimer_set_rtc_offset,
}
use g_sierra.Sim.Timer.Earliest.{IsEarliest-init}
use g_sierra.Sim.Counter.{hw_counter_init, hw_counter_triggered}
use g_sierra.Sim.Top.{
  Progress, running, exited, jump, dispatch, then_dispatch, hwm_sleep_until_next_timer,
  hwm_set_end_of_time, hwm_init, hwm_one_event,
}
use g_sierra.Sim.Top.Time.{
  IsNext, hwm_find_next_timer-IsNext, Outcome, goes_on, stops, hwm_one_event_lem,
}
use g_sierra.Sim.Machine.{
  Setting, end_of_time, rtc_offset, real_time, rtc_reset, irq_at_start, apply_setting,
  apply_settings, hw_at_start, Call, run_calls, initialised, Reach, started, event,
}
use g_sierra.Sim.Machine.Keeps.{
  Models, find-Models, timer_reached-Models, counter_triggered-Models, irq_triggered-Models,
}
use g_sierra.Sim.Machine.Calls.{run_calls-Models}
use g_sierra.Sim.Machine.Clock.{run_calls_time}
use g_sierra.Sim.Machine.Next.{run_calls-IsNext}

-- The next timer is the earliest of the three; the timer model's is the earlier of its two; what is
-- pending behind the mask is pending before it; a counter that stands has no timer; and the time is
-- not behind its end.
pub record IsSound (h : Hw) : Type 0 where
  pub next : IsNext h
  pub models : Models h.simu_time h.end_of_time h
  pub before_end : h.simu_time ≤ h.end_of_time

-- The settings leave the time and the controller as they were.
setting_keeps :
    (x : Setting) (h : Hw)
    → ((apply_setting x h).simu_time ≡ h.simu_time) × ((apply_setting x h).irq ≡ h.irq)
unfolding apply_setting hwm_set_end_of_time hwtimer_set_real_time_mode hwtimer_reset_rtc
    hwtimer_set_rtc_offset
setting_keeps (end_of_time t) h = (refl, refl)
setting_keeps (rtc_offset o) h = (refl, refl)
setting_keeps (real_time b) h = (refl, refl)
setting_keeps rtc_reset h = (refl, refl)

pub settings_keep :
    (xs : List Setting) (h : Hw)
    → ((apply_settings xs h).simu_time ≡ h.simu_time) × ((apply_settings xs h).irq ≡ h.irq)
settings_keep [] h = (refl, refl)
settings_keep (x ∷ xs) h =
    let (time, irq) = settings_keep xs (apply_setting x h) in
    let (time_x, irq_x) = setting_keeps x h in (time ∙ time_x, irq ∙ irq_x)

init-IsConsistent : (c : IrqCtrl) → c ≡ irq_at_start → IsConsistent (hw_irq_ctrl_init c)
unfolding hw_irq_ctrl_init
init-IsConsistent c e = record { size = refl; marked = ap (λ d. within d.irq_status no_bits) e }

pub hwm_init-Models :
    (host rtc : ℕ) (h : Hw)
    → h.irq ≡ irq_at_start
    → Models h.simu_time h.end_of_time (hwm_init host rtc h)
unfolding hwm_init hw_counter_init
hwm_init-Models host rtc h e =
    find-Models
      (record h {
        timer = hwtimer_init host rtc h.timer;
        counter = hw_counter_init h.counter;
        irq = hw_irq_ctrl_init h.irq;
      })
      (IsEarliest-init host rtc h.timer, init-IsConsistent h.irq e, (λ stopped. refl), refl, refl)

pub hwm_init-IsNext : (host rtc : ℕ) (h : Hw) → IsNext (hwm_init host rtc h)
unfolding hwm_init
hwm_init-IsNext host rtc h = hwm_find_next_timer-IsNext (record h {
  timer = hwtimer_init host rtc h.timer;
  counter = hw_counter_init h.counter;
  irq = hw_irq_ctrl_init h.irq;
})

-- How a sound state arises: the next timer is chosen and the models are sound at some time.
Models-IsSound : {now end : ℕ} (h : Hw) → IsNext h → Models now end h → now ≤ end → IsSound h
Models-IsSound h n (e, k, q, s, f) le = record {
  next = n;
  models = (e, k, q, refl, refl);
  before_end = omega (arith, s, f);
}

jump-Models : {now end : ℕ} (h : Hw) → Models now end h → Models (jump h).simu_time end (jump h)
jump-Models {end = end} h (e, k, q, s, f) =
    if_either (λ (t : Hw). Models t.simu_time end t) (not (ltb h.next_timer_time h.simu_time))
      (record h { simu_time = h.next_timer_time }) h (e, k, q, refl, f) (e, k, q, refl, f)

dispatch-Models :
    {now end : ℕ} (calls : List Call) (i : TimerIndex) (h h' : Hw)
    → Models now end h
    → dispatch (run_calls calls) i h ≡ running h'
    → Models now end h'
unfolding dispatch
dispatch-Models calls hwtimer h h' m e =
    let same : h' ≡ hwm_find_next_timer (hwtimer_timer_reached h) = cc in
    rw same (find-Models (hwtimer_timer_reached h) (timer_reached-Models h m))
dispatch-Models calls irqcnt h h' m e =
    let s = hw_irq_ctrl_timer_triggered (run_calls calls) h in
    let same : h' ≡ hwm_find_next_timer s = cc in
    rw same (find-Models s (irq_triggered-Models (run_calls calls) (run_calls-Models calls) h m))
dispatch-Models calls hw_counter h h' m e =
    let same : h' ≡ hwm_find_next_timer (hw_counter_triggered h) = cc in
    rw same (find-Models (hw_counter_triggered h) (counter_triggered-Models h m))
dispatch-Models calls no_timer h h' m e = cc

pub event_dispatches :
    (interrupt_raised : Hw → Hw) (h h' : Hw)
    → hwm_one_event interrupt_raised h ≡ running h'
    → dispatch interrupt_raised (jump h).next_timer_index (jump h) ≡ running h'
unfolding hwm_one_event hwm_sleep_until_next_timer
event_dispatches interrupt_raised h h' e =
    if_either
      (λ (p : Progress).
        then_dispatch interrupt_raised p ≡ running h'
        → dispatch interrupt_raised (jump h).next_timer_index (jump h) ≡ running h')
      ((jump h).signaled_end || ltb (jump h).end_of_time (jump h).simu_time) (exited (jump h))
      (running (jump h)) (λ d. cc) (λ d. d) e

pub known_timer : (h : Hw) → IsNext h → h.next_timer_index ≢ no_timer
known_timer h n none = let zero_ = n.known 0 in let one_ = n.known 1 in cc

one_event : (calls : List Call) (h : Hw) → IsSound h → Outcome h (hwm_one_event (run_calls calls) h)
one_event calls h s =
    hwm_one_event_lem (run_calls calls) (run_calls_time calls) h (known_timer h s.next)

went_on :
    (h h' : Hw) (p : Progress)
    → Outcome h p
    → p ≡ running h'
    → (h'.simu_time ≤ h.end_of_time) × IsNext h'
went_on h h' _ (goes_on h₁ go le at n) e = let same : h' ≡ h₁ = cc in rw same (le, n)
went_on h h' _ (stops h₁ why at) e = cc

event-IsSound :
    (calls : List Call) (h h' : Hw)
    → IsSound h
    → Outcome h (hwm_one_event (run_calls calls) h)
    → hwm_one_event (run_calls calls) h ≡ running h'
    → IsSound h'
event-IsSound calls h h' s o e =
    let (le, n) = went_on h h' (hwm_one_event (run_calls calls) h) o e in
    let m =
      dispatch-Models calls (jump h).next_timer_index (jump h) h' (jump-Models h s.models)
        (event_dispatches (run_calls calls) h h' e) in
    Models-IsSound h' n m (omega (arith, m.3, le))

-- Every state that the board reaches is sound: from power-on, through any settings of the command line,
-- any events and any calls that the software makes in between, the next timer stays the earliest one,
-- the models stay consistent, and the time does not pass its end.
pub Reach-IsSound : {h : Hw} → Reach h → IsSound h
unfolding initialised
Reach-IsSound (started slowdown settings host rtc calls) =
    let h = apply_settings settings (hw_at_start slowdown) in
    let (time, irq) = settings_keep settings (hw_at_start slowdown) in
    Models-IsSound (run_calls calls (initialised slowdown settings host rtc))
      (run_calls-IsNext calls (initialised slowdown settings host rtc) (hwm_init-IsNext host rtc h))
      (run_calls-Models calls (initialised slowdown settings host rtc)
        (hwm_init-Models host rtc h irq))
      (omega (arith, time))
Reach-IsSound (event h h' calls r e) =
    let s = Reach-IsSound r in event-IsSound calls h h' s (one_event calls h s) e

-- In every state that the board reaches, if the software does no more in the next event than some list
-- of its calls of the models, and does not end the process itself, the board goes on with the next
-- timer, or exits because of the signal or the end of time: the exit on a corrupted timer index is
-- never taken.
pub Reach-hwm_one_event :
    (h : Hw) (calls : List Call) → Reach h → Outcome h (hwm_one_event (run_calls calls) h)
Reach-hwm_one_event h calls r = one_event calls h (Reach-IsSound r)
