-- ===== src/Node.antt =====
-- samples/mesh/inc/node.h and samples/mesh/src/node.c: the node's record, its version 6 UUID and
-- the text of the UUID. A byte is a number below 256, and a C string the list of its characters
-- before the terminating zero.
pub mod Format
pub mod Generate
use g_sierra.Common.{
  ℕ, zero, suc, ◌+◌, ◌-◌, ◌/◌, ◌%◌, bit_or, Bool, true, false, ◌&&◌, ◌||◌, List, [], ◌∷◌, ltb, leb,
  ◌==◌, if◌then◌else◌, length, get_or, take, shr, low_bits,
}

abbrev pub uuid_str_len : ℕ
uuid_str_len = 37

-- What the member `str` points to: nothing, the local array of a function that has returned, or
-- a live string.
pub data StrPtr : Type 0 where
  null : StrPtr
  dangling : StrPtr
  points_to : List ℕ → StrPtr

pub record CustomUuid : Type 0 where
  pub uuid : List ℕ
  pub str : StrPtr

pub record Node : Type 0 where
  pub id : CustomUuid
  pub status : Bool

-- The sixteen bytes that `generate_id` copies into the UUID, from the uptime that
-- `k_uptime_get` returned and the two results of `sys_rand32_get`.
unfoldable pub generate_id : ℕ → ℕ → ℕ → List ℕ
generate_id timestamp random_part1 random_part2 =
    low_bits (shr timestamp 40) 8
    ∷ low_bits (shr timestamp 32) 8
    ∷ low_bits (shr timestamp 24) 8
    ∷ low_bits (shr timestamp 16) 8
    ∷ low_bits (shr timestamp 8) 8
    ∷ low_bits timestamp 8
    ∷ bit_or (low_bits (shr timestamp 12) 4) 0x60
    ∷ low_bits (shr timestamp 4) 8
    ∷ low_bits (shr random_part1 24) 8
    ∷ low_bits (shr random_part1 16) 8
    ∷ low_bits (shr random_part1 8) 8
    ∷ low_bits random_part1 8
    ∷ low_bits (shr random_part2 24) 8
    ∷ low_bits (shr random_part2 16) 8
    ∷ low_bits (shr random_part2 8) 8
    ∷ low_bits random_part2 8
    ∷ []

-- A digit of `%x`.
unfoldable pub hex_digit : ℕ → ℕ
hex_digit d = if ltb d 10 then b'0' + d else b'a' + (d - 10)

-- `%02x` of an `uint8_t`: two digits.
abbrev pub hex_byte : ℕ → List ℕ → List ℕ
hex_byte b rest = hex_digit (b / 16 % 16) ∷ hex_digit (b % 16) ∷ rest

abbrev pub byte_at : List ℕ → ℕ → ℕ
byte_at bytes i = get_or bytes i 0

-- The text of the format string of `uuid_to_str`.
unfoldable pub uuid_text : List ℕ → List ℕ
uuid_text u = hex_byte (byte_at u 0) (
    hex_byte (byte_at u 1) (
      hex_byte (byte_at u 2) (
        hex_byte (byte_at u 3) (
          b'-'
          ∷ hex_byte (byte_at u 4) (
              hex_byte (byte_at u 5) (
                b'-'
                ∷ hex_byte (byte_at u 6) (
                    hex_byte (byte_at u 7) (
                      b'-'
                      ∷ hex_byte (byte_at u 8) (
                          hex_byte (byte_at u 9) (
                            b'-'
                            ∷ hex_byte (byte_at u 10) (
                                hex_byte (byte_at u 11) (
                                  hex_byte (byte_at u 12) (
                                    hex_byte (byte_at u 13) (
                                      hex_byte (byte_at u 14)
                                        (hex_byte (byte_at u 15) [])))))))))))))))

-- `snprintf` writes at most `len - 1` characters of the text and a zero; nothing if `len` is 0.
unfoldable pub uuid_to_str : List ℕ → ℕ → List ℕ
uuid_to_str u len = take (len - 1) (uuid_text u)

unfoldable pub is_valid_hex_char : ℕ → Bool
is_valid_hex_char c =
    (leb b'0' c && leb c b'9') || (leb b'a' c && leb c b'f') || (leb b'A' c && leb c b'F')

abbrev pub is_hyphen_index : ℕ → Bool
is_hyphen_index i = i == 8 || i == 13 || i == 18 || i == 23

-- The `for` loop of `is_valid_uuid_v6`, with `n` rounds left at index `i`. A read past the end of
-- the list is a read of the terminating zero.
unfoldable pub check_format : ℕ → ℕ → List ℕ → Bool
unfolding is_valid_hex_char
check_format zero i s = true
check_format (suc n) i s =
    let rest = check_format n (i + 1) s in
    if is_hyphen_index i
    then (if get_or s i 0 == b'-' then rest else false)
    else (if is_valid_hex_char (get_or s i 0) then rest else false)

unfoldable pub is_valid_uuid_v6 : List ℕ → Bool
is_valid_uuid_v6 s =
    if length s == uuid_str_len - 1
    then (if check_format (uuid_str_len - 1) 0 s then get_or s 14 0 == b'6' else false)
    else false
