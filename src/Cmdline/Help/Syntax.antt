-- ===== src/Cmdline/Help/Syntax.antt =====
-- The syntax of an option in its buffer: as much of the text as the buffer holds.
use g_sierra.Common.{
  take_all, take-append, ℕ, ◌-◌, ◌<◌, ◌≤◌, ◌≡◌, ◌∙◌, ap, false, none, some, List, [], ◌++◌,
  append-nil, ltb, ◌==◌, if_false, Bool-cases, inl, inr, length, length-take, take, arith,
}
use mathlib.Core.Option
use g_sierra.Cmdline.{ArgsStruct}
use g_sierra.Cmdline.Help.{
  switch_text, bracket, closing, gen_in, cmd_gen_switch_syntax, stringy, max_stringy_len,
}

-- The whole text of an option.
abbrev pub usage : ArgsStruct → List ℕ
usage a = bracket a ++ (switch_text a ++ closing a)

gen_in_lem :
    (size : ℕ) (text close : List ℕ)
    → 0 < size
    → gen_in size text close ≡ some (take (size - 1) (text ++ close))
gen_in_lem size text close h =
    let positive : (size == 0) ≡ false = ground arith in
    elim (Bool-cases (ltb size (length text))) [
      | inl cut ↦
          let none_left : size - 1 - length text ≡ 0 = ground arith in
          rw (positive, cut, take-append (size - 1) text close, none_left, append-nil)
      | inr room ↦
          let behind : size - length text - 1 ≡ size - 1 - length text = omega arith in
          rw (positive, room, behind, take-append (size - 1) text close)
    ]

behind_bracket :
    (size : ℕ) (b text close : List ℕ)
    → length b < size
    → Option.map (λ s. b ++ s) (gen_in (size - length b) text close)
      ≡ some (take (size - 1) (b ++ (text ++ close)))
behind_bracket size b text close h =
    let left : size - length b - 1 ≡ size - 1 - length b = omega arith in
    rw (
      gen_in_lem (size - length b) text close (omega arith),
      take-append (size - 1) b (text ++ close),
      take_all (size - 1) b (omega arith),
      left,
    )

length-bracket : (a : ArgsStruct) → length (bracket a) ≤ 1
unfolding bracket
length-bracket a = elim (Bool-cases a.is_mandatory) [
  | inl e ↦ rw e (omega arith)
  | inr e ↦ rw e (omega arith)
]

-- A buffer of `size` bytes, at least two, gets as much of the syntax of an option as fits, and the
-- terminating zero: the first `size - 1` characters of the opening bracket, the option with its value,
-- the closing bracket and the space.
pub cmd_gen_switch_syntax_lem :
    (size : ℕ) (a : ArgsStruct)
    → 1 < size
    → cmd_gen_switch_syntax size a ≡ some (take (size - 1) (usage a))
unfolding cmd_gen_switch_syntax
cmd_gen_switch_syntax_lem size a h =
    let positive : (size == 0) ≡ false = ground arith in
    if_false (size == 0) _ _ positive
    ∙ behind_bracket size (bracket a) (switch_text a) (closing a) (omega (arith, length-bracket a))

pub stringy_lem : (a : ArgsStruct) → stringy a ≡ take (max_stringy_len - 1) (usage a)
unfolding stringy
stringy_lem a =
    ap (λ s. elim s [ none ↦ [] | some t ↦ t ])
      (cmd_gen_switch_syntax_lem max_stringy_len a (omega arith))

pub length-stringy : (a : ArgsStruct) → length (stringy a) < max_stringy_len
length-stringy a = rw (stringy_lem a) (omega (arith, length-take (max_stringy_len - 1) (usage a)))
