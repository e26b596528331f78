-- ===== src/Tests/Signals.antt =====
-- A host that holds the actions of the two signals.
use g_sierra.Common.{◌≡◌, ◌≢◌, refl, ◌∙◌, ap, false, Option, none, some, if◌then◌else◌}
use g_sierra.Sim.{Hw}
use g_sierra.Sim.Machine.{hw_at_start}
use g_sierra.Sim.Top.{exited, jump, hwm_signal_end_handler, hwm_one_event}
use g_sierra.Sim.Signals.{
  Signal, sigterm, sigint, Sigaction, Delivery, terminated, handled, SignalHost,
  hwm_set_sig_handler,
}
use g_sierra.Sim.Signals.Twice.{deliver-hwm_set_sig_handler}

abbrev Actions : Type 0
Actions = Sigaction × Sigaction

abbrev dfl : Sigaction
dfl = record { sa_handler = none; resets = false }

abbrev put : Signal → Sigaction → Actions → Actions
put sigterm a st = (a, st.1)
put sigint a st = (st.0, a)

abbrev look : Signal → Actions → Sigaction
look sigterm st = st.0
look sigint st = st.1

abbrev give : Option (Hw → Hw) → Signal → Actions → Delivery Actions
give none s st = terminated
give (some f) s st = handled f (if (look s st).resets then put s dfl st else st)

look-put_self : (s : Signal) (a : Sigaction) (st : Actions) → look s (put s a st) ≡ a
look-put_self sigterm a st = refl
look-put_self sigint a st = refl

look-put_other :
    (s s' : Signal) (a : Sigaction) (st : Actions) → s ≢ s' → look s (put s' a st) ≡ look s st
look-put_other sigterm sigterm a st h = absurd (h refl)
look-put_other sigterm sigint a st h = refl
look-put_other sigint sigterm a st h = refl
look-put_other sigint sigint a st h = absurd (h refl)

abbrev two_signals : SignalHost
two_signals = record {
  State = Actions;
  sigaction = put;
  action_of = look;
  deliver = λ s st. give (look s st).sa_handler s st;
  action-sigaction_self = look-put_self;
  action-sigaction_other = look-put_other;
  deliver_default = λ s st e. ap (λ o. give o s st) e;
  deliver_resets = λ s st f e r. (
    put s dfl st,
    ap (λ o. give o s st) e ∙ ap (λ b. handled f (if b then put s dfl st else st)) r,
    ap (λ (a : Sigaction). a.sa_handler) (look-put_self s dfl st),
  );
}

deliver-hwm_set_sig_handler_example :
    (st' : Actions) × (two_signals.deliver sigint (hwm_set_sig_handler two_signals (dfl, dfl))
      ≡ handled hwm_signal_end_handler st')
    × (hwm_one_event (λ h. h) (hwm_signal_end_handler (hw_at_start false))
        ≡ exited (jump (hwm_signal_end_handler (hw_at_start false))))
    × (two_signals.deliver sigint st' ≡ terminated)
deliver-hwm_set_sig_handler_example =
    deliver-hwm_set_sig_handler two_signals sigint (dfl, dfl) (λ h. h) (hw_at_start false)
