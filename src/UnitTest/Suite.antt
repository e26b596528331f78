-- ===== src/UnitTest/Suite.antt =====
-- samples/mesh/unit_test_prototype/src/main.c: the cases of both suites, on the code of the node and the
-- mock of the modem. A case is whether its assertions hold.
use Prim.Native.Nat.{bit_and}
use g_sierra.Common.{
  ℕ, ◌+◌, ◌-◌, ◌/◌, ◌%◌, ◌^◌, ◌<◌, ◌≡◌, refl, ◌∙◌, sym, Bool, true, false, Option, none, some, List,
  [], ◌∷◌, ◌==◌, ltb, length, length-take, replicate, shr, passes, passes_below, arith,
}
use g_sierra.Common.Int.{ℤ, pos, eqb_ℤ}
use g_sierra.Node.{Node, points_to, byte_at, generate_id, uuid_to_str, uuid_str_len, uuid_text}
use g_sierra.Node.Generate.{generate_id_valid, byte_six}
use g_sierra.Heartbeat.{
  Encoder, create_heartbeat_json, send_heartbeat, mock_get_signal_strength, low_signal_threshold,
  not_known, json_string_size,
}
use g_sierra.UnitTest.{validate_uuid_format, is_valid_uuid_v6-eq-validate_uuid_format}

-- What Zephyr gives a case: the uptime, two random words and the JSON encoder.
pub record Target : Type 0 where
  pub uptime : ℕ
  pub random_part1 : ℕ
  pub random_part2 : ℕ
  pub encode : Encoder

-- The node that the cases build first.
unfoldable pub tested_node : Target → Node
unfolding generate_id uuid_to_str
tested_node t =
    let uuid = generate_id t.uptime t.random_part1 t.random_part2 in
    record {
      id = record { uuid = uuid; str = points_to (uuid_to_str uuid uuid_str_len) };
      status = true;
    }

unfoldable pub test_create_node_id : Target → Bool
unfolding tested_node
test_create_node_id t = shr (bit_and (byte_at (tested_node t).id.uuid 6) 0xF0) 4 == 6

unfoldable pub test_uuid_to_str : Target → Bool
unfolding tested_node validate_uuid_format uuid_to_str
test_uuid_to_str t = validate_uuid_format (uuid_to_str (tested_node t).id.uuid uuid_str_len)

-- A pointer that is not `NULL`, to a string that is not empty.
abbrev pub not_empty : Option (List ℕ) → Bool
not_empty none = false
not_empty (some s) = ltb 0 (length s)

unfoldable pub test_create_heartbeat_json : Target → Bool
unfolding tested_node create_heartbeat_json
test_create_heartbeat_json t = not_empty (create_heartbeat_json t.encode (tested_node t))

-- `mock_signal_strength` is set, and the result of `send_heartbeat` compared.
unfoldable pub heartbeat_gives : ℤ → ℤ → Target → Bool
unfolding tested_node send_heartbeat mock_get_signal_strength
heartbeat_gives mock_signal_strength expected t =
    eqb_ℤ
      (send_heartbeat t.encode (mock_get_signal_strength mock_signal_strength)
        (tested_node t)).result
      expected

unfoldable pub test_signal_strength_below_threshold : Target → Bool
unfolding heartbeat_gives
test_signal_strength_below_threshold = heartbeat_gives (pos (low_signal_threshold - 1)) (pos 0)

unfoldable pub test_signal_strength_above_threshold : Target → Bool
unfolding heartbeat_gives
test_signal_strength_above_threshold = heartbeat_gives (pos (low_signal_threshold + 1)) (pos 1)

unfoldable pub test_signal_strength_not_known : Target → Bool
unfolding heartbeat_gives
test_signal_strength_not_known = heartbeat_gives (pos not_known) (pos 0)

unfoldable pub run_suites : Target → List Bool
unfolding test_create_node_id test_uuid_to_str test_create_heartbeat_json
    test_signal_strength_below_threshold test_signal_strength_above_threshold
    test_signal_strength_not_known
run_suites t =
    test_create_node_id t
    ∷ test_uuid_to_str t
    ∷ test_create_heartbeat_json t
    ∷ test_signal_strength_below_threshold t
    ∷ test_signal_strength_above_threshold t
    ∷ test_signal_strength_not_known t
    ∷ []

-- What the encoder documents: an object with a string that leaves room for the rest in the buffer is
-- written, with its opening brace, and 0 is returned.
pub record IsEncoder (encode : Encoder) : Type 0 where
  pub json : Node → List ℕ
  pub encodes :
      (node : Node) (text : List ℕ)
      → node.id.str ≡ points_to text
      → length text < uuid_str_len
      → encode node json_string_size ≡ (pos 0, b'{' ∷ json node)

version_field : passes (λ r. shr (bit_and (96 + r) 0xF0) 4 == 6) 16 ≡ true
unfolding passes
version_field = refl

create_node_id_passes : (t : Target) → test_create_node_id t ≡ true
unfolding test_create_node_id tested_node
create_node_id_passes t =
    let r = t.uptime / 2 ^ 12 % 2 ^ 4 in
    rw (byte_six t.uptime t.random_part1 t.random_part2)
      (passes_below (λ r. shr (bit_and (96 + r) 0xF0) 4 == 6) 16 r version_field (omega arith))

uuid_to_str_passes : (t : Target) → test_uuid_to_str t ≡ true
unfolding test_uuid_to_str tested_node
uuid_to_str_passes t =
    sym
      (is_valid_uuid_v6-eq-validate_uuid_format (uuid_to_str (tested_node t).id.uuid uuid_str_len))
    ∙ generate_id_valid t.uptime t.random_part1 t.random_part2

length-uuid_to_str : (u : List ℕ) → length (uuid_to_str u uuid_str_len) < uuid_str_len
unfolding uuid_to_str
length-uuid_to_str u = omega (arith, length-take 36 (uuid_text u))

create_heartbeat_json_passes :
    (t : Target) → IsEncoder t.encode → test_create_heartbeat_json t ≡ true
unfolding test_create_heartbeat_json create_heartbeat_json tested_node
create_heartbeat_json_passes t e =
    let uuid = generate_id t.uptime t.random_part1 t.random_part2 in
    rw (e.encodes (tested_node t) (uuid_to_str uuid uuid_str_len) refl (length-uuid_to_str uuid))
      (ground arith)

heartbeats_pass :
    (t : Target)
    → (test_signal_strength_below_threshold t ≡ true)
      × (test_signal_strength_above_threshold t ≡ true)
      × (test_signal_strength_not_known t ≡ true)
unfolding test_signal_strength_below_threshold test_signal_strength_above_threshold
    test_signal_strength_not_known heartbeat_gives send_heartbeat mock_get_signal_strength
heartbeats_pass t = (refl, refl, refl)

-- All cases of the unit tests pass, at every uptime and for all random words, with any encoder that
-- writes the node's object.
pub run_suites_pass : (t : Target) → IsEncoder t.encode → run_suites t ≡ replicate 6 true
unfolding run_suites
run_suites_pass t e =
    let (below, above, unknown) = heartbeats_pass t in
    rw
      (
        create_node_id_passes t,
        uuid_to_str_passes t,
        create_heartbeat_json_passes t e,
        below,
        above,
        unknown,
      )
      refl
