-- ===== src/Tests/Identity.antt =====
-- node.c, sram_setup.c and the identity of main.c at fixed inputs.
use g_sierra.Common.{
  codes, ℕ, ◌/◌, ◌%◌, ◌*◌, ◌+◌, ◌^◌, ◌≡◌, refl, true, false, List, [], ◌∷◌, ◌==◌, arith,
}
use g_sierra.Common.Int.{pos}
use g_sierra.Node.{
  CustomUuid, Node, null, byte_at, generate_id, uuid_to_str, uuid_str_len, uuid_text, hex_digit,
  check_format, is_valid_uuid_v6,
}
use g_sierra.Node.Format.{parse_uuid, is_valid_uuid_v6-uuid_to_str, parse_uuid-uuid_to_str}
use g_sierra.Node.Generate.{generate_id_valid, generate_id_fields, word16_at, word32_at}
use g_sierra.UnitTest.{validate_uuid_format, is_valid_uuid_v6-eq-validate_uuid_format}
use g_sierra.Sram.{sram_store, sram_load}
use g_sierra.Boot.{Globals, Platform, boot}
use g_sierra.Boot.Identity.{IsNamed, sram_load_lem, boot-IsNamed, boot-reset-boot, reset}

-- A UUID that `generate_id` could have made.
abbrev bytes : List ℕ
bytes =
    0 ∷ 1 ∷ 0x86 ∷ 0xa0 ∷ 0x12 ∷ 0x34 ∷ 0x61 ∷ 0x23 ∷ 0xde ∷ 0xad ∷ 0xbe ∷ 0xef ∷ 0xca ∷ 0xfe ∷ 0
    ∷ 1 ∷ []

abbrev text : List ℕ
text = codes "000186a0-1234-6123-dead-beefcafe0001"

uuid_to_str_runs : uuid_to_str bytes uuid_str_len ≡ text
unfolding uuid_to_str uuid_text hex_digit
uuid_to_str_runs = refl

-- A shorter buffer cuts the text.
uuid_to_str_short : uuid_to_str bytes 9 ≡ codes "000186a0"
unfolding uuid_to_str uuid_text hex_digit
uuid_to_str_short = refl

is_valid_runs : is_valid_uuid_v6 text ≡ true
unfolding is_valid_uuid_v6 check_format
is_valid_runs = refl

validate_runs : validate_uuid_format (codes "000186a0-1234-4123-dead-beefcafe0001") ≡ false
unfolding validate_uuid_format
validate_runs = refl

generate_id_runs :
    generate_id 100000 0xdeadbeef 0xcafe0001
    ≡ 0 ∷ 0 ∷ 0 ∷ 1 ∷ 0x86 ∷ 0xa0 ∷ 0x68 ∷ 0x6a ∷ 0xde ∷ 0xad ∷ 0xbe ∷ 0xef ∷ 0xca ∷ 0xfe ∷ 0 ∷ 1
      ∷ []
unfolding generate_id
generate_id_runs = refl

is_valid_uuid_v6-uuid_to_str_example :
    is_valid_uuid_v6 (uuid_to_str bytes uuid_str_len) ≡ (byte_at bytes 6 / 16 % 16 == 6)
is_valid_uuid_v6-uuid_to_str_example = is_valid_uuid_v6-uuid_to_str bytes

parse_uuid-uuid_to_str_example : parse_uuid (uuid_to_str bytes uuid_str_len) ≡ bytes
parse_uuid-uuid_to_str_example = parse_uuid-uuid_to_str bytes (omega arith)

generate_id_valid_example :
    is_valid_uuid_v6 (uuid_to_str (generate_id 100000 7 9) uuid_str_len) ≡ true
generate_id_valid_example = generate_id_valid 100000 7 9

generate_id_fields_example :
    (word16_at (generate_id 100000 7 9) 0 * 2 ^ 32 + word32_at (generate_id 100000 7 9) 2
      ≡ 100000 % 2 ^ 48)
    × (word32_at (generate_id 100000 7 9) 8 ≡ 7)
    × (word32_at (generate_id 100000 7 9) 12 ≡ 9)
generate_id_fields_example = generate_id_fields 100000 7 9 (omega arith) (omega arith)

is_valid_uuid_v6-eq-validate_uuid_format_example : is_valid_uuid_v6 text ≡ validate_uuid_format text
is_valid_uuid_v6-eq-validate_uuid_format_example = is_valid_uuid_v6-eq-validate_uuid_format text

abbrev blank : CustomUuid
blank = record { uuid = []; str = null }

abbrev blank_node : Node
blank_node = record { id = blank; status = false }

abbrev zeros : List ℕ
zeros = 0 ∷ 0 ∷ 0 ∷ 0 ∷ 0 ∷ 0 ∷ 0 ∷ 0 ∷ 0 ∷ 0 ∷ 0 ∷ 0 ∷ 0 ∷ 0 ∷ 0 ∷ 0 ∷ []

-- The first start of a board, whose backup SRAM is empty.
abbrev new_board : Globals
new_board = record { n = blank_node; uuid_str = []; backup_value = zeros }

abbrev first_start : Platform
first_start = record { sram_ready = true; uptime = 1000; rand1 = 7; rand2 = 9 }

abbrev second_start : Platform
second_start = record { sram_ready = true; uptime = 2000; rand1 = 8; rand2 = 10 }

boot_stores : (boot first_start new_board).backup_value ≡ generate_id 1000 7 9
unfolding boot sram_load sram_store uuid_to_str uuid_text hex_digit is_valid_uuid_v6 check_format
    generate_id
boot_stores = refl

sram_load_lem_example :
    ((sram_load true blank bytes).0 ≡ pos 0) × ((sram_load true blank bytes).1.uuid ≡ bytes)
sram_load_lem_example = sram_load_lem true blank bytes

boot-IsNamed_example : IsNamed (boot first_start new_board)
boot-IsNamed_example = boot-IsNamed first_start new_board

boot-reset-boot_example :
    (boot second_start (reset (boot first_start new_board) blank_node [])).n.id.uuid
    ≡ (boot first_start new_board).n.id.uuid
boot-reset-boot_example = boot-reset-boot first_start second_start new_board blank_node [] refl refl
