-- ===== src/Actinius.antt =====
-- samples/mesh/boards/common/actinius/actinius_board_common.c: the pins that select the SIM and the
-- charger, set when the board starts. The device tree is the record `Tree`; a pin of another
-- component is absent.
use g_sierra.Common.{ℕ, Bool, not, ◌==◌, if◌then◌else◌, List, [], ◌∷◌, ◌++◌, Option, none, some}
use g_sierra.Common.Int.{ℤ, pos}

-- A node with a pin: whether its port is ready, and the index of its setting.
pub record Pin : Type 0 where
  pub port_is_ready : Bool
  pub setting : ℕ

pub record Tree : Type 0 where
  pub sim_select : Option Pin
  pub charger_enable : Option Pin

pub data Level : Type 0 where
  output_high output_low : Level

pub data Configured : Type 0 where
  sim charger : Level → Configured

-- The value returned (`enodev` is `-ENODEV`), and the pins that were configured.
unfoldable pub actinius_board_set_sim_select : ℤ → Pin → ℤ × List Configured
actinius_board_set_sim_select enodev p =
    if not p.port_is_ready
    then (enodev, [])
    else (pos 0, sim (if p.setting == 0 then output_high else output_low) ∷ [])

unfoldable pub actinius_board_set_charger_enable : ℤ → Pin → ℤ × List Configured
actinius_board_set_charger_enable enodev p =
    if not p.port_is_ready
    then (enodev, [])
    else (pos 0, charger (if p.setting == 0 then output_low else output_high) ∷ [])

abbrev when_present :
    Option Pin → (Pin → ℤ × List Configured) → ℤ × List Configured → ℤ × List Configured
when_present none f so_far = so_far
when_present (some p) f so_far = let (result, more) = f p in (result, so_far.1 ++ more)

-- The result of the last pin stands.
unfoldable pub actinius_board_init : ℤ → Tree → ℤ × List Configured
unfolding actinius_board_set_sim_select actinius_board_set_charger_enable
actinius_board_init enodev t =
    when_present t.charger_enable (actinius_board_set_charger_enable enodev)
      (when_present t.sim_select (actinius_board_set_sim_select enodev) (pos 0, []))
