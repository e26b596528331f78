-- ===== src/Sim/Machine/Exec/Ends.antt =====
-- The loop of `posix_exec_for` ends, behind the time that was asked for or with the process.
use g_sierra.Common.{
  ℕ, zero, suc, ◌+◌, ◌*◌, ◌^◌, ◌≤◌, ◌<◌, ◌≡◌, ◌≢◌, refl, ◌∙◌, sym, ap, ◌⊎◌, inl, inr, true, false,
  ◌||◌, if_cases, if_true, if_false, ltb, ltb→lt, Bool-cases, u64, arith,
}
use mathlib.Core.Path.{subst}
use g_sierra.Sim.{Hw, TimerIndex, hwtimer, irqcnt, hw_counter, no_timer, hwm_get_time}
use g_sierra.Sim.Top.{
  Progress, running, exited, jump, dispatch, then_dispatch, hwm_sleep_until_next_timer,
  hwm_one_event, exec_until, posix_exec_for,
}
use g_sierra.Sim.Top.Time.{IsNext, later, Outcome, goes_on, stops, hwm_one_event_lem}
use g_sierra.Sim.Machine.Sound.{event_dispatches, known_timer}
use g_sierra.Sim.Machine.Exec.{IsTimely, IsPatient, measure}
use g_sierra.Sim.Machine.Exec.Closer.{Closer, due_bound}
use g_sierra.Sim.Machine.Exec.Dispatch.{dispatch-Closer}
use g_sierra.Sim.Machine.Exec.Forward.{
  at_next, next_ahead, jump_ahead, at_next-IsTimely, measure-at_next, timer_of-at_next,
}

-- How the loop may end: at its time, or with the process, because of the signal or the end of time.
pub data Ends (stop : ℕ) : Progress → Type 0 where
  reached : (h : Hw) → stop ≤ h.simu_time → Ends stop (running h)
  process_ended :
      (h : Hw) → (h.signaled_end ≡ true) ⊎ (h.end_of_time < h.simu_time) → Ends stop (exited h)

-- The handlers of the events do not end the process.
dispatch-not-exited :
    (interrupt_raised : Hw → Hw) (i : TimerIndex) (h h' : Hw)
    → dispatch interrupt_raised i h ≢ exited h'
unfolding dispatch
dispatch-not-exited interrupt_raised hwtimer h h' e = cc
dispatch-not-exited interrupt_raised irqcnt h h' e = cc
dispatch-not-exited interrupt_raised hw_counter h h' e = cc
dispatch-not-exited interrupt_raised no_timer h h' e = cc

over_reason :
    (j : Hw)
    → (j.signaled_end || ltb j.end_of_time j.simu_time) ≡ true
    → (j.signaled_end ≡ true) ⊎ (j.end_of_time < j.simu_time)
over_reason j over = elim (Bool-cases j.signaled_end) [
  | inl s ↦ inl s
  | inr s ↦ inr (ground (arith, over, s))
]

exit_reason :
    (interrupt_raised : Hw → Hw) (h h' : Hw)
    → hwm_one_event interrupt_raised h ≡ exited h'
    → (h'.signaled_end ≡ true) ⊎ (h'.end_of_time < h'.simu_time)
unfolding hwm_one_event hwm_sleep_until_next_timer
exit_reason interrupt_raised h h' e =
    let j = jump h in
    if_cases
      (λ (p : Progress).
        then_dispatch interrupt_raised p ≡ exited h'
        → (h'.signaled_end ≡ true) ⊎ (h'.end_of_time < h'.simu_time))
      (j.signaled_end || ltb j.end_of_time j.simu_time) (exited j) (running j)
      (λ over e. let same : h' ≡ j = cc in rw same (over_reason j over))
      (λ on e. absurd (dispatch-not-exited interrupt_raised j.next_timer_index j h' e)) e

exec_until-exited :
    (interrupt_raised : Hw → Hw) (fuel stop : ℕ) (h : Hw)
    → exec_until interrupt_raised fuel stop (exited h) ≡ exited h
unfolding exec_until
exec_until-exited interrupt_raised zero stop h = refl
exec_until-exited interrupt_raised (suc fuel) stop h = refl

exec_until_over :
    (interrupt_raised : Hw → Hw) (fuel stop : ℕ) (h : Hw)
    → ltb h.simu_time stop ≡ false
    → exec_until interrupt_raised fuel stop (running h) ≡ running h
unfolding exec_until hwm_get_time
exec_until_over interrupt_raised zero stop h e = if_false _ _ _ e
exec_until_over interrupt_raised (suc fuel) stop h e = if_false _ _ _ e

exec_until_step :
    (interrupt_raised : Hw → Hw) (fuel stop : ℕ) (h : Hw)
    → ltb h.simu_time stop ≡ true
    → exec_until interrupt_raised (suc fuel) stop (running h)
      ≡ exec_until interrupt_raised fuel stop (hwm_one_event interrupt_raised h)
unfolding exec_until hwm_get_time
exec_until_step interrupt_raised fuel stop h e = if_true _ _ _ e

module _ (stop : ℕ) (in_range : stop < 2 ^ 64) (interrupt_raised : Hw → Hw)
    (patient : IsPatient stop interrupt_raised) where
  -- An event that goes on before `stop` leaves less to do.
  event-Closer :
      (h h' : Hw)
      → IsTimely stop h
      → IsNext h
      → hwm_one_event interrupt_raised h ≡ running h'
      → h'.simu_time ≡ later h.simu_time h.next_timer_time
      → h'.simu_time < stop
      → Closer stop in_range (measure stop h) h'
  event-Closer h h' y n e time lt =
      let ahead = next_ahead stop h y n in
      let before : h.next_timer_time < stop = ground (arith, time, lt, ahead) in
      let runs : dispatch interrupt_raised (at_next h).next_timer_index (at_next h) ≡ running h' =
        ap (λ (s : Hw). dispatch interrupt_raised s.next_timer_index s) (sym (jump_ahead h ahead))
        ∙ event_dispatches interrupt_raised h h' e in
      let (y', less) =
        dispatch-Closer stop in_range interrupt_raised patient h.next_timer_index (at_next h) h'
          (at_next-IsTimely stop h y n) before
          (λ d. sym (timer_of-at_next h.next_timer_index h d) ∙ sym (n.known d)) runs in
      (y', omega (arith, less, measure-at_next stop h ahead before))

  until_end :
      (fuel : ℕ) (h : Hw) (p : Progress)
      → IsTimely stop h
      → IsNext h
      → measure stop h ≤ fuel
      → hwm_one_event interrupt_raised h ≡ p
      → Outcome h p
      → Ends stop (exec_until interrupt_raised fuel stop p)
  until_end fuel h _ y n enough e (stops h' why at) =
      rw (exec_until-exited interrupt_raised fuel stop h')
        (process_ended h' (exit_reason interrupt_raised h h' e))
  until_end zero h _ y n enough e (goes_on h' go le at n') =
      elim (Bool-cases (ltb h'.simu_time stop)) [
        | inl before ↦
            let (y', less) = event-Closer h h' y n e at (ltb→lt h'.simu_time stop before) in
            absurd (omega arith)
        | inr over ↦
            rw (exec_until_over interrupt_raised zero stop h' over)
              (reached h' (ground (arith, over)))
      ]
  until_end (suc fuel) h _ y n enough e (goes_on h' go le at n') =
      elim (Bool-cases (ltb h'.simu_time stop)) [
        | inl before ↦
            let (y', less) = event-Closer h h' y n e at (ltb→lt h'.simu_time stop before) in
            rw (exec_until_step interrupt_raised fuel stop h' before) (
              until_end fuel h' (hwm_one_event interrupt_raised h') y' n' (omega arith) refl
                (hwm_one_event_lem interrupt_raised patient.time h' (known_timer h' n')))
        | inr over ↦
            rw (exec_until_over interrupt_raised (suc fuel) stop h' over)
              (reached h' (ground (arith, over)))
      ]

measure_bound : (us : ℕ) (h : Hw) → measure (h.simu_time + us) h ≤ 8 * us + 7
measure_bound us h = omega (
  arith,
  due_bound h.simu_time h.timer.hw_timer_tick_timer,
  due_bound h.simu_time h.timer.hw_timer_awake_timer,
  due_bound h.simu_time h.counter.hw_counter_timer,
  due_bound h.simu_time h.irq.irq_ctrl_timer,
)

-- If the next timer is chosen and none is in the past, the timers that are due before the end have
-- periods that move them on, the software sets timers to the future only, and the end is in the range
-- of the 64 bits, `posix_exec_for` for `us` microseconds ends, with fuel for `8 * us + 7` rounds: at
-- least that much later, or with the end of the
-- process, by the signal or behind the end of time.
pub posix_exec_for_lem :
    (interrupt_raised : Hw → Hw) (fuel us : ℕ) (h : Hw)
    → h.simu_time + us < 2 ^ 64
    → IsPatient (h.simu_time + us) interrupt_raised
    → IsTimely (h.simu_time + us) h
    → IsNext h
    → 8 * us + 7 ≤ fuel
    → Ends (h.simu_time + us) (posix_exec_for interrupt_raised fuel us h)
unfolding posix_exec_for hwm_get_time
posix_exec_for_lem interrupt_raised fuel us h range patient y n enough =
    let same : u64 (h.simu_time + us) ≡ h.simu_time + us = omega (arith, range) in
    rw same (
      until_end (h.simu_time + us) range interrupt_raised patient fuel h
        (hwm_one_event interrupt_raised h) y n (omega (arith, enough, measure_bound us h)) refl
        (hwm_one_event_lem interrupt_raised patient.time h (known_timer h n)))

-- The same, with a name for the end.
pub exec_until_stop :
    (interrupt_raised : Hw → Hw) (fuel us stop : ℕ) (h : Hw)
    → h.simu_time + us ≡ stop
    → stop < 2 ^ 64
    → IsPatient stop interrupt_raised
    → IsTimely stop h
    → IsNext h
    → 8 * us + 7 ≤ fuel
    → Ends stop (posix_exec_for interrupt_raised fuel us h)
exec_until_stop interrupt_raised fuel us stop h e range patient y n enough =
    subst
      (λ stop.
        stop < 2 ^ 64
        → IsPatient stop interrupt_raised
        → IsTimely stop h
        → Ends stop (posix_exec_for interrupt_raised fuel us h))
      e (λ range patient y. posix_exec_for_lem interrupt_raised fuel us h range patient y n enough)
      range patient y
