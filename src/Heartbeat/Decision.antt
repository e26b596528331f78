-- ===== src/Heartbeat/Decision.antt =====
-- What a heartbeat reports, and when the timer fires.
use g_sierra.Common.{◌≡◌, refl, none, some, if◌then◌else◌, arith}
use g_sierra.Common.Int.{ℤ, is_negative}
use g_sierra.Node.{Node}
use g_sierra.Heartbeat.{
  Encoder, create_heartbeat_json, send_heartbeat, Scheduler, start_heartbeat, heartbeat_handler,
  mock_get_signal_strength, json_string_size,
}

-- A heartbeat never waits for the encoder: the result and the last message do not depend on it. The text is
-- the encoder's, for the 128 bytes of the static buffer, or `NULL` if it reports an error.
pub send_heartbeat-json :
    (encode other : Encoder) (strength : ℤ) (node : Node)
    → let h = send_heartbeat encode strength node in
      let h' = send_heartbeat other strength node in
      (h.result ≡ h'.result)
      × (h.message ≡ h'.message)
      × (h.json ≡ (
          if is_negative (encode node json_string_size).0
          then none
          else some (encode node json_string_size).1))
unfolding send_heartbeat create_heartbeat_json
send_heartbeat-json encode other strength node = ground arith

-- Once `start_heartbeat` has run, every expiry of the timer reports that node, also if an earlier
-- call had named another one; the decision is that of `send_heartbeat`.
pub heartbeat_handler-start_heartbeat :
    (encode : Encoder) (strength : ℤ) (node earlier : Node) (s : Scheduler)
    → heartbeat_handler encode strength (start_heartbeat node (start_heartbeat earlier s))
      ≡ some (send_heartbeat encode (mock_get_signal_strength strength) node)
unfolding heartbeat_handler start_heartbeat mock_get_signal_strength
heartbeat_handler-start_heartbeat encode strength node earlier s = refl
