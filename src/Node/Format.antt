-- ===== src/Node/Format.antt =====
-- The text of a UUID: its digits, its length, and when `is_valid_uuid_v6` accepts it.
use g_sierra.Common.{
  ℕ, ◌+◌, ◌-◌, ◌*◌, ◌/◌, ◌%◌, ◌<◌, ◌≡◌, refl, true, List, [], ◌∷◌, leb, ◌==◌, if◌then◌else◌, length,
  get_or, tabulate, tabulate_ext, tabulate-get_or, All, get_or-lt, ◌∙◌, arith,
}
use g_sierra.Node.{
  hex_digit, byte_at, uuid_text, uuid_to_str, uuid_str_len, is_valid_hex_char, check_format,
  is_valid_uuid_v6,
}

-- The value of a digit, undoing `hex_digit`.
abbrev pub digit_value : ℕ → ℕ
digit_value c = if leb c b'9' then c - b'0' else c - b'a' + 10

pub digit_value-hex_digit : (d : ℕ) → d < 16 → digit_value (hex_digit d) ≡ d
unfolding hex_digit
digit_value-hex_digit d h = ground arith

hex_digit_valid : (x : ℕ) → is_valid_hex_char (hex_digit (x % 16)) ≡ true
unfolding is_valid_hex_char hex_digit
hex_digit_valid x = ground arith

hex_digit_six : (x : ℕ) → (hex_digit (x % 16) == b'6') ≡ (x % 16 == 6)
unfolding hex_digit
hex_digit_six x = ground arith

check_format-uuid_text : (u : List ℕ) → check_format 36 0 (uuid_text u) ≡ true
unfolding check_format uuid_text
check_format-uuid_text u = simp hex_digit_valid

length-uuid_text : (u : List ℕ) → length (uuid_text u) ≡ 36
unfolding uuid_text
length-uuid_text u = refl

-- A buffer of `UUID_STR_LEN` holds the whole text.
pub uuid_to_str-eq-uuid_text : (u : List ℕ) → uuid_to_str u uuid_str_len ≡ uuid_text u
unfolding uuid_to_str uuid_text
uuid_to_str-eq-uuid_text u = refl

version_digit : (u : List ℕ) → (get_or (uuid_text u) 14 0 == b'6') ≡ (byte_at u 6 / 16 % 16 == 6)
unfolding uuid_text
version_digit u = hex_digit_six (byte_at u 6 / 16)

-- Whatever the sixteen bytes, `is_valid_uuid_v6` accepts the text that `uuid_to_str` writes into a
-- buffer of `UUID_STR_LEN` exactly when the upper half of byte 6 is the version 6.
pub is_valid_uuid_v6-uuid_to_str :
    (u : List ℕ) → is_valid_uuid_v6 (uuid_to_str u uuid_str_len) ≡ (byte_at u 6 / 16 % 16 == 6)
unfolding is_valid_uuid_v6
is_valid_uuid_v6-uuid_to_str u =
    rw (uuid_to_str-eq-uuid_text, length-uuid_text, check_format-uuid_text) (version_digit u)

-- The bytes that a text of the UUID format stands for.
pub parse_uuid : List ℕ → List ℕ
parse_uuid s =
    pair 0
    ∷ pair 2
    ∷ pair 4
    ∷ pair 6
    ∷ pair 9
    ∷ pair 11
    ∷ pair 14
    ∷ pair 16
    ∷ pair 19
    ∷ pair 21
    ∷ pair 24
    ∷ pair 26
    ∷ pair 28
    ∷ pair 30
    ∷ pair 32
    ∷ pair 34
    ∷ []
  where
    pair : ℕ → ℕ
    pair i = digit_value (get_or s i 0) * 16 + digit_value (get_or s (i + 1) 0)

abbrev reread : ℕ → ℕ
reread b = digit_value (hex_digit (b / 16 % 16)) * 16 + digit_value (hex_digit (b % 16))

reread_lem : (b : ℕ) → b < 256 → reread b ≡ b
reread_lem b h = omega (
  arith,
  digit_value-hex_digit (b / 16 % 16) (omega arith),
  digit_value-hex_digit (b % 16) (omega arith),
)

-- Sixteen bytes.
abbrev pub IsUuid : List ℕ → Type 0
IsUuid u = (length u ≡ 16) × All (λ b. b < 256) u

parse_uuid-uuid_text :
    (u : List ℕ) → parse_uuid (uuid_text u) ≡ tabulate 16 (λ i. reread (byte_at u i))
unfolding parse_uuid uuid_text
parse_uuid-uuid_text u = refl

tabulate-byte_at : (n : ℕ) (u : List ℕ) → length u ≡ n → tabulate n (byte_at u) ≡ u
tabulate-byte_at n u e = rw (← e) (tabulate-get_or u 0)

-- The text loses nothing: reading it back digit by digit gives the sixteen bytes again.
pub parse_uuid-uuid_to_str : (u : List ℕ) → IsUuid u → parse_uuid (uuid_to_str u uuid_str_len) ≡ u
parse_uuid-uuid_to_str u h =
    rw (uuid_to_str-eq-uuid_text, parse_uuid-uuid_text)
      (tabulate_ext 16 _ _ (λ i. reread_lem (byte_at u i) (get_or-lt u 256 i 0 h.1 (omega arith)))
        ∙ tabulate-byte_at 16 u h.0)
