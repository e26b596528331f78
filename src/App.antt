-- ===== src/App.antt =====
-- samples/mesh/src/main.c, `main` from `console_getline_init` on: the start of the modem, and the
-- loop that hands every line of the console to it. (The part before is Boot.)
pub mod Wire
use g_sierra.Common.{ℕ, Bool, List, [], ◌∷◌}
use g_sierra.Common.Int.{ℤ}
use g_sierra.Effects.{
  Timer, World, Act, ◌>>◌, emit, emit_all, done, continue, sleep, init_console, init_load_switch,
  Run,
}
use g_sierra.Boot.{Globals, Platform, boot}
use g_sierra.Gsm.{gsm_driver_init, gsm_modem_init, send_at_command}

-- What the platform answers to `gsm_driver_init`, and the size of a pointer.
pub record Board : Type 0 where
  pub enotsup : ℤ
  pub enosys : ℤ
  pub uart_ready : Bool
  pub callback_result : ℤ
  pub pointer_size : ℕ

module _ (k : Timer) where
  open k use {State}

  -- The `while (1)` loop, for the lines that `console_getline` returns.
  unfoldable pub forward_lines : ℕ → List (List ℕ) → Act State
  forward_lines fuel [] w = done w
  forward_lines fuel (s ∷ lines) w =
      continue (send_at_command k fuel s w) (forward_lines fuel lines)

  unfoldable pub main_devices : Board → ℕ → List (List ℕ) → Act State
  main_devices b fuel lines =
      emit init_console
      >> emit (sleep 5000)
      >> emit_all (gsm_driver_init b.enotsup b.enosys b.uart_ready b.callback_result).1
      >> emit (sleep 10000)
      >> gsm_modem_init k b.pointer_size fuel
      >> emit (sleep 5000)
      >> forward_lines fuel lines

  -- `main` whole: the load switch, the identity, the devices.
  unfoldable pub main :
      Platform → Board → ℕ → List (List ℕ) → Globals → World State → Globals × Run State
  main p b fuel lines g w = (boot p g, (emit init_load_switch >> main_devices b fuel lines) w)
