-- ===== src/Node/Generate.antt =====
-- What `generate_id` puts into the sixteen bytes, and that its result passes the node's own check.
use g_sierra.Common.{
  ℕ, ◌+◌, ◌*◌, ◌/◌, ◌%◌, ◌^◌, ◌<◌, ◌≡◌, refl, bit_or, true, List, ◌==◌, ==_iff, passes,
  passes_below, arith,
}
use g_sierra.Node.{byte_at, generate_id, uuid_to_str, uuid_str_len, is_valid_uuid_v6}
use g_sierra.Node.Format.{IsUuid, is_valid_uuid_v6-uuid_to_str}

version_table : passes (λ x. bit_or x 0x60 == 96 + x) 16 ≡ true
unfolding passes
version_table = refl

bit_or_version : (x : ℕ) → x < 16 → bit_or x 0x60 ≡ 96 + x
bit_or_version x h = (==_iff _ _).0 (passes_below _ 16 x version_table h)

-- The numbers that two and four bytes from index `i` on spell, the highest first.
abbrev pub word16_at : List ℕ → ℕ → ℕ
word16_at u i = byte_at u i * 256 + byte_at u (i + 1)

abbrev pub word32_at : List ℕ → ℕ → ℕ
word32_at u i = word16_at u i * 65536 + word16_at u (i + 2)

module _ (timestamp random_part1 random_part2 : ℕ) where
  abbrev id_bytes : List ℕ
  id_bytes = generate_id timestamp random_part1 random_part2

  pub byte_six : byte_at id_bytes 6 ≡ 96 + timestamp / 2 ^ 12 % 2 ^ 4
  unfolding generate_id
  byte_six = bit_or_version (timestamp / 2 ^ 12 % 2 ^ 4) (omega arith)

  -- The generated id has sixteen bytes.
  pub generate_id-IsUuid : IsUuid id_bytes
  unfolding generate_id
  generate_id-IsUuid = omega (arith, bit_or_version (timestamp / 2 ^ 12 % 2 ^ 4) (omega arith))

  -- Every generated UUID, written as text, is accepted by `is_valid_uuid_v6`.
  pub generate_id_valid : is_valid_uuid_v6 (uuid_to_str id_bytes uuid_str_len) ≡ true
  generate_id_valid = rw is_valid_uuid_v6-uuid_to_str ((==_iff _ _).1 (omega (arith, byte_six)))

  -- The id carries the low 48 bits of the uptime and both random words whole, so two ids are equal
  -- only if these are.
  pub generate_id_fields :
      random_part1 < 2 ^ 32
      → random_part2 < 2 ^ 32
      → (word16_at id_bytes 0 * 2 ^ 32 + word32_at id_bytes 2 ≡ timestamp % 2 ^ 48)
        × (word32_at id_bytes 8 ≡ random_part1)
        × (word32_at id_bytes 12 ≡ random_part2)
  unfolding generate_id
  generate_id_fields h1 h2 = (omega arith, omega arith, omega arith)
