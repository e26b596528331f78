-- ===== src/UnitTest.antt =====
-- samples/mesh/unit_test_prototype/src/main.c: the checker that the tests hold a UUID's text to.
pub mod Suite
use g_sierra.Common.{
  ℕ, zero, suc, ◌+◌, ◌<◌, ◌≡◌, refl, Bool, true, false, not, ◌&&◌, ◌||◌, List, ◌==◌, if◌then◌else◌,
  Bool-cases, inl, inr, ltb, ltb→lt, length, get_or, passes, passes_below, arith,
}
use g_sierra.Node.{is_hyphen_index, is_valid_hex_char, check_format, is_valid_uuid_v6}

-- `isxdigit` of the C standard, in the C locale: the decimal digits and the letters a to f.
pub isxdigit : ℕ → Bool
isxdigit c =
    c == b'0'
    || c == b'1'
    || c == b'2'
    || c == b'3'
    || c == b'4'
    || c == b'5'
    || c == b'6'
    || c == b'7'
    || c == b'8'
    || c == b'9'
    || c == b'a'
    || c == b'b'
    || c == b'c'
    || c == b'd'
    || c == b'e'
    || c == b'f'
    || c == b'A'
    || c == b'B'
    || c == b'C'
    || c == b'D'
    || c == b'E'
    || c == b'F'

-- The `for` loop of `validate_uuid_format`, with `n` rounds left at index `i`.
pub check_digits : ℕ → ℕ → List ℕ → Bool
check_digits zero i s = true
check_digits (suc n) i s =
    let rest = check_digits n (i + 1) s in
    if is_hyphen_index i then rest else (if not (isxdigit (get_or s i 0)) then false else rest)

unfoldable pub validate_uuid_format : List ℕ → Bool
validate_uuid_format s =
    if not (length s == 36)
    then false
    else if not (get_or s 8 0 == b'-')
        || not (get_or s 13 0 == b'-')
        || not (get_or s 18 0 == b'-')
        || not (get_or s 23 0 == b'-')
    then false
    else if not (get_or s 14 0 == b'6')
    then false
    else check_digits 36 0 s

same : Bool → Bool → Bool
same true b = b
same false b = not b

eq_of_same : (a b : Bool) → same a b ≡ true → a ≡ b
unfolding same
eq_of_same a b h = ground arith

xdigit_table : passes (λ c. same (is_valid_hex_char c) (isxdigit c)) 103 ≡ true
unfolding isxdigit is_valid_hex_char passes same
xdigit_table = refl

ne-of-lt : (c k : ℕ) → k < c → (c == k) ≡ false
ne-of-lt c k h = ground arith

not_hex_above : (c : ℕ) → 102 < c → is_valid_hex_char c ≡ false
unfolding is_valid_hex_char
not_hex_above c h = ground arith

not_xdigit_above : (c : ℕ) → 102 < c → isxdigit c ≡ false
unfolding isxdigit
not_xdigit_above c h = ground arith

-- The node's own test of a digit is the C library's.
pub is_valid_hex_char-eq-isxdigit : (c : ℕ) → is_valid_hex_char c ≡ isxdigit c
is_valid_hex_char-eq-isxdigit c = elim (Bool-cases (ltb c 103)) [
  | inl low ↦ eq_of_same _ _ (passes_below _ 103 c xdigit_table (ltb→lt _ _ low))
  | inr high ↦ ground (arith, not_hex_above c, not_xdigit_above c)
]

-- The tests of `check_format` on the hyphens alone.
hyphens : ℕ → ℕ → List ℕ → Bool
hyphens zero i s = true
hyphens (suc n) i s =
    let rest = hyphens n (i + 1) s in
    if is_hyphen_index i then get_or s i 0 == b'-' && rest else rest

check_format-split :
    (n i : ℕ) (s : List ℕ) → check_format n i s ≡ (hyphens n i s && check_digits n i s)
unfolding check_format hyphens check_digits
check_format-split zero i s = refl
check_format-split (suc n) i s =
    ground (arith, check_format-split n (i + 1) s, is_valid_hex_char-eq-isxdigit (get_or s i 0))

hyphens_lem :
    (s : List ℕ)
    → hyphens 36 0 s ≡ (
        get_or s 8 0 == b'-'
        && (get_or s 13 0 == b'-' && (get_or s 18 0 == b'-' && (get_or s 23 0 == b'-' && true))))
unfolding hyphens
hyphens_lem s = refl

-- On every string `is_valid_uuid_v6` of the node and `validate_uuid_format` of the tests give the
-- same verdict.
pub is_valid_uuid_v6-eq-validate_uuid_format :
    (s : List ℕ) → is_valid_uuid_v6 s ≡ validate_uuid_format s
unfolding is_valid_uuid_v6 validate_uuid_format
is_valid_uuid_v6-eq-validate_uuid_format s = rw (check_format-split, hyphens_lem) (ground arith)
