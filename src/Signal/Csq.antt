-- ===== src/Signal/Csq.antt =====
-- The modem's answer to `AT+CSQ` is read back, and what the reading loop comes to.
use g_sierra.Common.{
  codes, ℕ, zero, suc, ◌+◌, ◌-◌, ◌*◌, ◌/◌, ◌%◌, ◌<◌, ◌≡◌, refl, ◌∙◌, ap, true, false, some, List,
  [], ◌∷◌, ◌++◌, map, append_assoc, ltb, if◌then◌else◌, if_true, ◌^◌, cstr, All, All-snoc, ◌⊎◌,
  Bool-cases, inl, inr, arith,
}
use g_sierra.Common.Int.{ℤ, pos}
use g_sierra.Effects.{Timer, World, done, ◌>>◌}
use g_sierra.Gsm.{send_at_command}
use g_sierra.Gsm.Commands.{send_at_command_lem, command_trace}
use g_sierra.Signal.{
  contains, cut_token, strtok, is_digit, read_digits, read_number, fits_int, atoi, handle_message,
  read_messages, waiting, blocked, get_signal_strength,
}

-- The decimal digits of a number, with fuel for its digits.
pub decimal_fuel : ℕ → ℕ → List ℕ
decimal_fuel zero n = []
decimal_fuel (suc f) n =
    let front = decimal_fuel f (n / 10) in
    if ltb n 10 then (b'0' + n) ∷ [] else front ++ (b'0' + n % 10) ∷ []

unfoldable pub decimal : ℕ → List ℕ
unfolding decimal_fuel
decimal n = decimal_fuel (suc n) n

abbrev IsDigits : List ℕ → Type 0
IsDigits = All (λ c. is_digit c ≡ true)

digit_of : (d : ℕ) → d < 10 → is_digit (b'0' + d) ≡ true
digit_of d h = ground arith

decimal-IsDigits : (f n : ℕ) → IsDigits (decimal_fuel f n)
unfolding decimal_fuel
decimal-IsDigits zero n = tt
decimal-IsDigits (suc f) n = elim (Bool-cases (ltb n 10)) [
  | inl small ↦ rw small (digit_of n (ground arith), tt)
  | inr large ↦ rw large (
      All-snoc (λ (c : ℕ). is_digit c ≡ true) (decimal_fuel f (n / 10)) (b'0' + n % 10)
        (decimal-IsDigits f (n / 10)) (digit_of (n % 10) (omega arith)))
]

read_digits-snoc :
    (acc : ℕ) (xs : List ℕ) (d : ℕ)
    → IsDigits xs
    → d < 10
    → read_digits acc (xs ++ (b'0' + d) ∷ []) ≡ read_digits acc xs * 10 + d
unfolding read_digits
read_digits-snoc acc [] d h p = rw (digit_of d p) (omega arith)
read_digits-snoc acc (x ∷ xs) d h p = rw h.0 (read_digits-snoc (acc * 10 + (x - b'0')) xs d h.1 p)

read_digits-decimal_fuel : (f n : ℕ) → n < f → read_digits 0 (decimal_fuel f n) ≡ n
unfolding decimal_fuel
read_digits-decimal_fuel zero n h = absurd (omega arith)
read_digits-decimal_fuel (suc f) n h = elim (Bool-cases (ltb n 10)) [
  | inl small ↦ rw small (unfold read_digits in rw (digit_of n (ground arith)) (omega arith))
  | inr large ↦
      rw
        (
          large,
          read_digits-snoc 0 (decimal_fuel f (n / 10)) (n % 10) (decimal-IsDigits f (n / 10))
              (omega arith),
        )
        (omega (arith, read_digits-decimal_fuel f (n / 10) (ground arith)))
]

read_number_digits : (ds : List ℕ) → IsDigits ds → read_number ds ≡ pos (read_digits 0 ds)
unfolding read_number
read_number_digits [] h = refl
read_number_digits (d ∷ ds) h = ground (arith, h.0)

-- The decimal digits of a number in the range of `int`, behind a space, are read as that number.
atoi-decimal : (beyond : List ℕ → ℤ) (n : ℕ) → n < 2 ^ 31 → atoi beyond (b' ' ∷ decimal n) ≡ pos n
unfolding atoi decimal
atoi-decimal beyond n small =
    let e : read_number (b' ' ∷ decimal n) ≡ pos n =
      read_number_digits (decimal n) (decimal-IsDigits (suc n) n)
      ∙ ap pos (read_digits-decimal_fuel (suc n) n (omega arith)) in
    ap (λ m. if fits_int m then m else beyond (b' ' ∷ decimal n)) e
    ∙ if_true (fits_int (pos n)) (pos n) (beyond (b' ' ∷ decimal n)) (ground (arith, small))

cut_token_digits :
    (ds rest : List ℕ) → IsDigits ds → cut_token (codes ",") (ds ++ b',' ∷ rest) ≡ (ds, rest)
unfolding cut_token
cut_token_digits [] rest h = refl
cut_token_digits (d ∷ ds) rest h = ground (arith, h.0, cut_token_digits ds rest h.1)

module _ (beyond : List ℕ → ℤ) where
  handle_message_digits :
      (ds ber tx_buf : List ℕ) (strength : ℤ)
      → IsDigits ds
      → cstr tx_buf ≡ codes "+CSQ: " ++ (ds ++ b',' ∷ ber)
      → handle_message beyond tx_buf strength ≡ atoi beyond (b' ' ∷ ds)
  unfolding handle_message contains strtok atoi
  handle_message_digits ds ber tx_buf strength h e = rw (e, cut_token_digits ds ber h)

  -- The answer `+CSQ: <n>,<ber>` sets the strength to n, an `int`, whatever it was and whatever follows.
  pub handle_message-decimal :
      (n : ℕ) (ber tx_buf : List ℕ) (strength : ℤ)
      → n < 2 ^ 31
      → cstr tx_buf ≡ codes "+CSQ: " ++ (decimal n ++ b',' ∷ ber)
      → handle_message beyond tx_buf strength ≡ pos n
  unfolding decimal
  handle_message-decimal n ber tx_buf strength small e =
      handle_message_digits (decimal n) ber tx_buf strength (decimal-IsDigits (suc n) n) e
      ∙ atoi-decimal beyond n small

  handle_message-no_csq :
      (tx_buf : List ℕ) (strength : ℤ)
      → contains (codes "+CSQ") (cstr tx_buf) ≡ false
      → handle_message beyond tx_buf strength ≡ strength
  unfolding handle_message
  handle_message-no_csq tx_buf strength h = rw h

  -- The echo of the query names `+CSQ` and has no number: it leaves the strength as it was.
  handle_message-echo :
      (tx_buf : List ℕ) (strength : ℤ)
      → cstr tx_buf ≡ codes "AT+CSQ"
      → handle_message beyond tx_buf strength ≡ strength
  unfolding handle_message contains strtok
  handle_message-echo tx_buf strength e = rw e

  -- The strength after a list of messages, one after the other.
  pub after_messages : List (List ℕ) → ℤ → ℤ
  after_messages [] strength = strength
  after_messages (m ∷ ms) strength = after_messages ms (handle_message beyond m strength)

  -- A message that is no answer: one without `+CSQ`, or the echo of the query.
  abbrev pub IsNoise : List ℕ → Type 0
  IsNoise m = (contains (codes "+CSQ") (cstr m) ≡ false) ⊎ (cstr m ≡ codes "AT+CSQ")

  after_messages_noise :
      (ms : List (List ℕ)) (strength : ℤ) → All IsNoise ms → after_messages ms strength ≡ strength
  unfolding after_messages
  after_messages_noise [] strength h = refl
  after_messages_noise (m ∷ ms) strength h = rw (noise h.0) (after_messages_noise ms strength h.1)
    where
      noise : IsNoise m → handle_message beyond m strength ≡ strength
      noise (inl n) = handle_message-no_csq m strength n
      noise (inr e) = handle_message-echo m strength e

  after_messages-append :
      (xs ys : List (List ℕ)) (strength : ℤ)
      → after_messages (xs ++ ys) strength ≡ after_messages ys (after_messages xs strength)
  unfolding after_messages
  after_messages-append [] ys strength = refl
  after_messages-append (x ∷ xs) ys strength =
      after_messages-append xs ys (handle_message beyond x strength)

  -- The strength is that of the last answer, a number in the range of `int`, however many messages stand
  -- before it, and however much noise follows it.
  pub after_messages_last :
      (before noise : List (List ℕ)) (n : ℕ) (ber answer : List ℕ) (strength : ℤ)
      → n < 2 ^ 31
      → cstr answer ≡ codes "+CSQ: " ++ (decimal n ++ b',' ∷ ber)
      → All IsNoise noise
      → after_messages (before ++ answer ∷ noise) strength ≡ pos n
  unfolding after_messages
  after_messages_last before noise n ber answer strength small e h =
      rw
        (
          after_messages-append before (answer ∷ noise) strength,
          handle_message-decimal n ber answer (after_messages before strength) small e,
        )
        (after_messages_noise noise (pos n) h)

  read_messages-some :
      (ms : List (List ℕ)) (strength : ℤ)
      → read_messages beyond (map some ms) strength ≡ waiting (after_messages ms strength)
  unfolding read_messages after_messages
  read_messages-some [] strength = refl
  read_messages-some (m ∷ ms) strength = read_messages-some ms (handle_message beyond m strength)

module _ (k : Timer) (beyond : List ℕ → ℤ) where
  open k use {State}

  query_lem :
      (fuel : ℕ) (first second : List ℕ) (w : World State)
      → (t : State) × ((send_at_command k (suc (suc fuel)) first
              >> send_at_command k (suc (suc fuel)) second)
            w
          ≡ done (record {
            timer = t;
            trace = w.trace ++ (command_trace first ++ command_trace second);
          }))
  query_lem fuel first second w =
      let (t, p) = send_at_command_lem k fuel first w in
      let w' : World State = record { timer = t; trace = w.trace ++ command_trace first } in
      let (u, q) = send_at_command_lem k fuel second w' in (u, rw (p, q) (simp append_assoc))

  -- A call of `k_msgq_get` that may wait for ever returns only with a message. After any number of
  -- messages `get_signal_strength` is still in its loop: it has sent the escape and the query, and
  -- neither returns the strength that it has read nor goes back to data mode.
  pub get_signal_strength_blocks :
      (fuel : ℕ) (ms : List (List ℕ)) (w : World State)
      → (t : State) × (get_signal_strength k beyond (suc (suc fuel)) (map some ms) w
          ≡ blocked (after_messages beyond ms (pos 0)) (record {
            timer = t;
            trace = w.trace ++ (command_trace (codes "+++") ++ command_trace (codes "AT+CSQ"));
          }))
  unfolding get_signal_strength
  get_signal_strength_blocks fuel ms w =
      let (t, p) = query_lem fuel (codes "+++") (codes "AT+CSQ") w in
      (t, rw (p, read_messages-some beyond ms (pos 0)))
