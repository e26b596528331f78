-- ===== src/Sim/Signals.antt =====
-- `hwm_set_sig_handler` of hw_models_top.c, and what it relies on of the host's signals.
pub mod Twice
use g_sierra.Common.{◌≡◌, ◌≢◌, Bool, true, Option, none, some}
use g_sierra.Sim.{Hw}
use g_sierra.Sim.Top.{hwm_signal_end_handler}

pub data Signal : Type 0 where
  sigterm sigint : Signal

-- `struct sigaction`: the handler is nothing for SIG_DFL, and `resets` is SA_RESETHAND of the flags.
pub record Sigaction : Type 0 where
  pub sa_handler : Option (Hw → Hw)
  pub resets : Bool

-- The process is terminated, or the handler runs and the host goes on.
pub data Delivery (State : Type 0) : Type 0 where
  terminated : Delivery State
  handled : (Hw → Hw) → State → Delivery State

-- The signals of the host: `sigaction`, the present action of a signal, and its delivery. The laws are
-- those that POSIX documents: an action stays until it is replaced, one of SIG_DFL terminates the
-- process, and one with SA_RESETHAND is SIG_DFL again once its handler has been called.
pub record SignalHost : Type 1 where
  pub State : Type 0
  pub sigaction : Signal → Sigaction → State → State
  pub action_of : Signal → State → Sigaction
  pub deliver : Signal → State → Delivery State
  pub action-sigaction_self :
      (s : Signal) (act : Sigaction) (st : State) → action_of s (sigaction s act st) ≡ act
  pub action-sigaction_other :
      (s s' : Signal) (act : Sigaction) (st : State)
      → s ≢ s'
      → action_of s (sigaction s' act st) ≡ action_of s st
  pub deliver_default :
      (s : Signal) (st : State) → (action_of s st).sa_handler ≡ none → deliver s st ≡ terminated
  pub deliver_resets :
      (s : Signal) (st : State) (f : Hw → Hw)
      → (action_of s st).sa_handler ≡ some f
      → (action_of s st).resets ≡ true
      → (st' : State) × (deliver s st ≡ handled f st') × ((action_of s st').sa_handler ≡ none)

abbrev pub end_action : Sigaction
end_action = record { sa_handler = some hwm_signal_end_handler; resets = true }

unfoldable pub hwm_set_sig_handler : (host : SignalHost) → host.State → host.State
hwm_set_sig_handler host st =
    host.sigaction sigint end_action (host.sigaction sigterm end_action st)
