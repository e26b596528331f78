-- ===== src/Cmdline/Match.antt =====
-- An option with a value is recognised exactly.
use g_sierra.Common.{
  ℕ, ◌+◌, ◌≤◌, ◌≡◌, ◌≢◌, refl, ◌∙◌, ap, ◌↔◌, true, List, [], ◌∷◌, ◌++◌, ◌==◌, ==_iff, Bool-cases,
  inl, inr, length, length-append, arith,
}
use g_sierra.Cmdline.{matched, skip_dash, is_separator, match_option, dashes, cmd_is_option}

-- The argument reads: the option, a separator, and a value that is not empty.
pub record IsGiven (tail option value : List ℕ) : Type 0 where
  separator : ℕ
  separates : is_separator separator ≡ true
  present : value ≢ []
  text : tail ≡ option ++ separator ∷ value

match_found :
    (of n : ℕ) (tail option : List ℕ)
    → match_option of tail option ≡ matched n
    → (value : List ℕ) × IsGiven tail option value × (n ≡ of + length option + 1)
unfolding match_option
match_found of n [] [] h = cc
match_found of n (c ∷ []) [] h = ground arith
match_found of n (c ∷ v ∷ vs) [] h = elim (Bool-cases (is_separator c)) [
  | inl s ↦ (
    v ∷ vs,
    record { separator = c; separates = s; present = λ e. cc; text = refl },
    ground arith,
  )
  | inr s ↦ ground arith
]
match_found of n [] (o ∷ os) h = cc
match_found of n (c ∷ cs) (o ∷ os) h = elim (Bool-cases (c == o)) [
  | inl s ↦
      let (value, given, length_n) = match_found (of + 1) n cs os (ground arith) in
      let same : c ≡ o = ground arith in
      (
        value,
        record {
          separator = given.separator;
          separates = given.separates;
          present = given.present;
          text = rw same (ap (◌∷◌ o) given.text);
        },
        omega (arith, length_n),
      )
  | inr s ↦ ground arith
]

match_given :
    (of sep : ℕ) (value option : List ℕ)
    → is_separator sep ≡ true
    → value ≢ []
    → match_option of (option ++ sep ∷ value) option ≡ matched (of + length option + 1)
unfolding match_option
match_given of sep [] [] s present = absurd (present refl)
match_given of sep (v ∷ vs) [] s present = rw s (ap matched (omega arith))
match_given of sep value (o ∷ os) s present =
    let rest : match_option (of + 1) (os ++ sep ∷ value) os ≡ matched (of + length (o ∷ os) + 1) =
      match_given (of + 1) sep value os s present ∙ ap matched (omega arith) in
    let same : (o == o) ≡ true = (==_iff o o).1 refl in rw same rest

length_tail : (arg : List ℕ) → length (skip_dash (skip_dash arg)) ≤ length arg
length_tail [] = omega arith
length_tail (c ∷ []) = ground arith
length_tail (c ∷ d ∷ ds) = ground arith

length_given :
    (tail option value : List ℕ)
    → IsGiven tail option value
    → length tail ≡ length option + 1 + length value
length_given tail option value g =
    omega (arith, ap length g.text, length-append option (g.separator ∷ value))

-- `cmd_is_option` recognises an option with a value exactly when the argument, one or two dashes at
-- its start left out, is the option, a colon or equals sign, and a value that is not empty; the
-- number that it returns is where the value begins.
pub cmd_is_option_iff :
    (arg option : List ℕ) (n : ℕ)
    → (cmd_is_option arg option true ≡ matched n) ↔ (
        (value : List ℕ) × IsGiven (skip_dash (skip_dash arg)) option value
        × (n + length value ≡ length arg))
unfolding cmd_is_option
cmd_is_option_iff arg option n = (found, given)
  where
    found :
        match_option (dashes arg) (skip_dash (skip_dash arg)) option ≡ matched n
        → (value : List ℕ) × IsGiven (skip_dash (skip_dash arg)) option value
          × (n + length value ≡ length arg)
    found h =
        let (value, g, e) = match_found (dashes arg) n (skip_dash (skip_dash arg)) option h in
        (value, g, omega (arith, e, length_given _ option value g, length_tail arg))

    given :
        (value : List ℕ) × IsGiven (skip_dash (skip_dash arg)) option value
          × (n + length value ≡ length arg)
        → match_option (dashes arg) (skip_dash (skip_dash arg)) option ≡ matched n
    given (value, g, e) =
        ap (λ t. match_option (dashes arg) t option) g.text
        ∙ match_given (dashes arg) g.separator value option g.separates g.present
        ∙ ap matched (omega (arith, e, length_given _ option value g, length_tail arg))
