-- ===== src/Heartbeat.antt =====
-- samples/mesh/src/heartbeat_handler.c and inc/heartbeat_handler.h: the periodic report of the
-- node. `json_obj_encode_buf` is Zephyr's: a function from the node and the buffer's size to its
-- return value and the buffer's text.
pub mod Decision
use g_sierra.Common.{
  codes, ℕ, Bool, true, false, ◌||◌, Option, none, some, List, ◌==◌, if◌then◌else◌,
}
use g_sierra.Common.Int.{ℤ, pos, is_negative, ltb_ℤ, eqb_ℤ}
use g_sierra.Node.{Node}

abbrev pub low_signal_threshold : ℕ
low_signal_threshold = 10

abbrev pub not_known : ℕ
not_known = 99

-- `HEARTBEAT_INTERVAL` in milliseconds
abbrev pub heartbeat_interval : ℕ
heartbeat_interval = 10000

abbrev pub json_string_size : ℕ
json_string_size = 128

abbrev pub Encoder : Type 0
Encoder = Node → ℕ → ℤ × List ℕ

-- The text in the static buffer, or `NULL` on an error.
unfoldable pub create_heartbeat_json : Encoder → Node → Option (List ℕ)
create_heartbeat_json encode node =
    let (ret, json_string) = encode node json_string_size in
    if is_negative ret then none else some json_string

-- What a call of `send_heartbeat` returns, the text that it prints as data (nothing for `NULL`), and
-- the message that it prints last.
pub record Heartbeat : Type 0 where
  pub result : ℤ
  pub json : Option (List ℕ)
  pub message : List ℕ

-- `signal_strength` is what `get_signal_strength` returned: that of the modem's driver, or the
-- mock of the unit tests. The function prints and returns a number; it sends nothing.
unfoldable pub send_heartbeat : Encoder → ℤ → Node → Heartbeat
send_heartbeat encode signal_strength node =
    let json_string = create_heartbeat_json encode node in
    if ltb_ℤ signal_strength (pos low_signal_threshold) || eqb_ℤ signal_strength (pos not_known)
    then record { result = pos 0; json = json_string; message = codes "Sending over LoRa\n" }
    else record {
      result = pos 1;
      json = json_string;
      message = codes "Sending Data to the Server\n";
    }

-- `get_signal_strength` of gsm_driver_mock.c.
unfoldable pub mock_get_signal_strength : ℤ → ℤ
mock_get_signal_strength mock_signal_strength = mock_signal_strength

-- The duration and the period of a running timer, in milliseconds.
pub record RunningTimer : Type 0 where
  pub duration : ℕ
  pub period : ℕ

-- `global_node` and `heartbeat_timer`.
pub record Scheduler : Type 0 where
  pub global_node : Option Node
  pub heartbeat_timer : Option RunningTimer

unfoldable pub start_heartbeat : Node → Scheduler → Scheduler
start_heartbeat node s = record {
  global_node = some node;
  heartbeat_timer = some (record { duration = heartbeat_interval; period = heartbeat_interval });
}

-- The expiry function of the timer; nothing if the pointer is still `NULL`.
unfoldable pub heartbeat_handler : Encoder → ℤ → Scheduler → Option Heartbeat
heartbeat_handler encode signal_strength s = elim s.global_node [
  | none ↦ none
  | some node ↦ some (send_heartbeat encode signal_strength node)
]
