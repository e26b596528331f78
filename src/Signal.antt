-- ===== src/Signal.antt =====
-- samples/mesh/src/gsm_driver.c, `get_signal_strength` and `read_msg_q`, with the functions of the C
-- library that they call. Strings are the characters before the terminating zero.
pub mod Csq
pub mod Console
use g_sierra.Common.{
  codes, ℕ, zero, suc, ◌+◌, ◌-◌, ◌*◌, ◌^◌, Bool, true, false, not, ◌&&◌, ◌||◌, Option, none, some,
  List, [], ◌∷◌, ltb, leb, ◌==◌, if◌then◌else◌, cstr, ◌++◌,
}
use g_sierra.Common.Int.{ℤ, pos, negsuc, pos_part, neg_part}
use g_sierra.Effects.{Timer, World, Run, done, out_of_bounds, out_of_fuel, ◌>>◌}
use g_sierra.Gsm.{send_at_command}

unfoldable pub starts_with : List ℕ → List ℕ → Bool
starts_with [] s = true
starts_with (p ∷ ps) [] = false
starts_with (p ∷ ps) (c ∷ cs) = p == c && starts_with ps cs

-- `strstr(s, p) != NULL`
unfoldable pub contains : List ℕ → List ℕ → Bool
unfolding starts_with
contains p [] = starts_with p []
contains p (c ∷ cs) = starts_with p (c ∷ cs) || contains p cs

abbrev pub is_delimiter : List ℕ → ℕ → Bool
is_delimiter [] c = false
is_delimiter (d ∷ ds) c = c == d || is_delimiter ds c

unfoldable pub skip_delimiters : List ℕ → List ℕ → List ℕ
skip_delimiters ds [] = []
skip_delimiters ds (c ∷ cs) =
    let rest = skip_delimiters ds cs in if is_delimiter ds c then rest else c ∷ cs

-- The characters up to the first delimiter, and those behind it.
unfoldable pub cut_token : List ℕ → List ℕ → List ℕ × List ℕ
cut_token ds [] = ([], [])
cut_token ds (c ∷ cs) =
    let (token, rest) = cut_token ds cs in if is_delimiter ds c then ([], cs) else (c ∷ token, rest)

-- `strtok`: the token, or nothing if no character is left that is no delimiter, and where the next
-- call with `NULL` begins.
unfoldable pub strtok : List ℕ → List ℕ → Option (List ℕ) × List ℕ
unfolding skip_delimiters cut_token
strtok ds s = token_of (skip_delimiters ds s)
  where
    token_of : List ℕ → Option (List ℕ) × List ℕ
    token_of [] = (none, [])
    token_of (c ∷ cs) = let (token, rest) = cut_token ds (c ∷ cs) in (some token, rest)

abbrev pub is_space : ℕ → Bool
is_space c = c == 32 || (leb 9 c && leb c 13)

abbrev pub is_digit : ℕ → Bool
is_digit c = leb b'0' c && leb c b'9'

unfoldable pub read_digits : ℕ → List ℕ → ℕ
read_digits acc [] = acc
read_digits acc (c ∷ cs) =
    let next = read_digits (acc * 10 + (c - b'0')) cs in if is_digit c then next else acc

abbrev pub negate : ℕ → ℤ
negate zero = pos zero
negate (suc n) = negsuc n

-- The number in white space, a sign and digits, of any size.
unfoldable pub read_number : List ℕ → ℤ
unfolding read_digits
read_number [] = pos 0
read_number (c ∷ cs) =
    let rest = read_number cs in
    if is_space c
    then rest
    else if c == b'-'
    then negate (read_digits 0 cs)
    else if c == b'+'
    then pos (read_digits 0 cs)
    else pos (read_digits 0 (c ∷ cs))

-- Whether a number is an `int`.
abbrev pub fits_int : ℤ → Bool
fits_int n = ltb (pos_part n) (2 ^ 31) && leb (neg_part n) (2 ^ 31)

-- How the loop stands when the given results of `k_msgq_get` are used up: it waits for another
-- one, or it has left. A result is a message, or nothing if the call returned another value than 0.
pub data Loop : Type 0 where
  waiting : ℤ → Loop
  left : ℤ → Loop

-- For a number outside the range of `int` the C standard gives no result of `atoi`; `beyond` is what it
-- then returns.
module _ (beyond : List ℕ → ℤ) where
  unfoldable pub atoi : List ℕ → ℤ
  unfolding read_number
  atoi s = let n = read_number s in if fits_int n then n else beyond s

  -- The body of the `while` loop: `signal_strength` after a message in `tx_buf`.
  unfoldable pub handle_message : List ℕ → ℤ → ℤ
  handle_message tx_buf signal_strength =
      let s = cstr tx_buf in
      if contains (codes "+CSQ") s then second (strtok (codes ": ") s).1 else signal_strength
    where
      second : List ℕ → ℤ
      second rest = elim (strtok (codes ",") rest).0 [
        | none ↦ signal_strength
        | some token ↦ atoi token
      ]

  unfoldable pub read_messages : List (Option (List ℕ)) → ℤ → Loop
  read_messages [] strength = waiting strength
  read_messages (none ∷ results) strength = left strength
  read_messages (some tx_buf ∷ results) strength =
      read_messages results (handle_message tx_buf strength)

-- `read_msg_q`, on the results of `k_msgq_get` so far: what it has printed, and whether it still waits.
unfoldable pub read_msg_q : List (Option (List ℕ)) → List ℕ × Bool
read_msg_q [] = ([], true)
read_msg_q (none ∷ results) = ([], false)
read_msg_q (some tx_buf ∷ results) =
    let (printed, waits) = read_msg_q results in (cstr tx_buf ++ b'\n' ∷ printed, waits)

-- What a call has come to.
pub data Call (Clock : Type 0) : Type 0 where
  returned : ℤ → World Clock → Call Clock
  blocked : ℤ → World Clock → Call Clock
  stopped : Run Clock → Call Clock

module _ (k : Timer) (beyond : List ℕ → ℤ) where
  open k use {State}

  finish_call : ℤ → Run State → Call State
  finish_call strength (done w) = returned strength w
  finish_call strength r = stopped r

  after_query : ℕ → Loop → World State → Call State
  unfolding finish_call
  after_query fuel (waiting strength) w = blocked strength w
  after_query fuel (left strength) w = finish_call strength (
      (send_at_command k fuel (codes "At+ktcpstart=1")
          >> send_at_command k fuel (codes "reconnected"))
        w)

  from_query : ℕ → Loop → Run State → Call State
  unfolding after_query
  from_query fuel loop (done w) = after_query fuel loop w
  from_query fuel loop r = stopped r

  unfoldable pub get_signal_strength : ℕ → List (Option (List ℕ)) → World State → Call State
  unfolding from_query
  get_signal_strength fuel results w =
      from_query fuel (read_messages beyond results (pos 0))
        ((send_at_command k fuel (codes "+++") >> send_at_command k fuel (codes "AT+CSQ")) w)
