-- ===== src/Effects.antt =====
-- What the driver asks of the platform, as a trace, and the runs that build it. Zephyr's timer is
-- not part of the repository: it is a record with what its documentation promises.
use g_sierra.Common.{ℕ, ◌≡◌, refl, List, [], ◌∷◌, ◌++◌}
use g_sierra.Common.Int.{ℤ}

-- What `gsm_driver_init` prints.
pub data Report : Type 0 where
  device_not_ready not_supported not_implemented irq_enabled : Report
  callback_error : ℤ → Report

pub data Effect : Type 0 where
  init_load_switch : Effect
  init_console : Effect
  configure_power : Effect
  set_power : ℕ → Effect
  set_callback : Effect
  enable_rx : Effect
  report : Report → Effect
  poll_out : ℕ → Effect
  start_timer : ℕ → Effect
  sync_timer : Effect
  sleep : ℕ → Effect

-- A timer that `k_timer_start` starts with a duration in milliseconds and no period.
-- `k_timer_status_sync` blocks until it expires and returns how often it has since the last call;
-- for a timer that has expired and was read, it returns 0 at once.
pub record Timer : Type 1 where
  pub State : Type 0
  pub start : ℕ → State → State
  pub status_sync : State → ℕ × State
  pub sync_expired : (ms : ℕ) (t : State) → (status_sync (start ms t)).0 ≡ 1
  pub sync_again : (ms : ℕ) (t : State) → (status_sync (status_sync (start ms t)).1).0 ≡ 0

-- A timer that remembers whether it runs.
abbrev pub one_shot : Timer
one_shot = record {
  State = ℕ;
  start = λ ms t. 1;
  status_sync = λ t. (t, 0);
  sync_expired = λ ms t. refl;
  sync_again = λ ms t. refl;
}

-- The state of the driver's timer, and what was done so far, the oldest first.
pub record World (Clock : Type 0) : Type 0 where
  pub timer : Clock
  pub trace : List Effect

-- A run ends in a world, reads outside an array, or has used up the fuel of a loop.
pub data Run (Clock : Type 0) : Type 0 where
  done : World Clock → Run Clock
  out_of_bounds : Run Clock
  out_of_fuel : Run Clock

abbrev pub Act : Type 0 → Type 0
Act Clock = World Clock → Run Clock

module _ {Clock : Type 0} where
  abbrev pub continue : Run Clock → Act Clock → Run Clock
  continue (done w) f = f w
  continue out_of_bounds f = out_of_bounds
  continue out_of_fuel f = out_of_fuel

  infixl 5 ◌>>◌
  abbrev pub ◌>>◌ : Act Clock → Act Clock → Act Clock
  ◌>>◌ m f w = continue (m w) f

  abbrev pub emit : Effect → Act Clock
  emit e w = done (record w { trace = w.trace ++ e ∷ [] })

  abbrev pub emit_all : List Effect → Act Clock
  emit_all es w = done (record w { trace = w.trace ++ es })
