-- ===== src/Cmdline/Help.antt =====
-- cmdline_common.c: the help texts. What is printed is the list of its characters; the buffer of a
-- switch holds a string, or nothing where it is left without its terminating zero.
pub mod Syntax
pub mod Fits
pub mod Columns
pub mod Wrap
use g_sierra.Common.{
  ◌>>=◌, ℕ, zero, suc, ◌+◌, ◌-◌, Bool, true, false, not, Option, none, some, List, [], ◌∷◌, ◌++◌,
  ltb, leb, ◌==◌, if◌then◌else◌, length, take, drop, replicate, codes,
}
use mathlib.Core.Option
use g_sierra.Cmdline.{ArgsStruct, OptionType, type_l}

abbrev pub max_line_width : ℕ
max_line_width = 100

abbrev pub long_help_align : ℕ
long_help_align = 30

abbrev pub maxopt_switch_len : ℕ
maxopt_switch_len = 32

abbrev pub maxopt_name_len : ℕ
maxopt_name_len = 32

abbrev pub max_stringy_len : ℕ
max_stringy_len = maxopt_switch_len + maxopt_name_len + 2 + 1 + 2 + 1

abbrev pub help_switch : List ℕ
help_switch = codes "[-h] [--h] [--help] [-?]"

abbrev pub help_descr : List ℕ
help_descr = codes "Display this help"

abbrev pub is_type_l : OptionType → Bool
is_type_l type_l = true
is_type_l other = false

-- The text of the formats "-%s", "-%s=<%s>" and "-%s <%s>...".
unfoldable pub switch_text : ArgsStruct → List ℕ
switch_text a =
    if a.is_switch
    then b'-' ∷ a.option
    else if not (is_type_l a.type)
    then b'-' ∷ (a.option ++ codes "=<" ++ a.name ++ codes ">")
    else b'-' ∷ (a.option ++ codes " <" ++ a.name ++ codes ">...")

unfoldable pub bracket : ArgsStruct → List ℕ
bracket a = if not a.is_mandatory then codes "[" else []

unfoldable pub closing : ArgsStruct → List ℕ
closing a = if not a.is_mandatory then codes "] " else codes " "

-- The part behind the bracket, in the `size` bytes that are left. `snprintf` writes at most one
-- character less than the size, and nothing at size 0.
abbrev pub gen_in : ℕ → List ℕ → List ℕ → Option (List ℕ)
gen_in size text close =
    let ret = length text in
    if size == 0
    then none
    else if ltb size ret
    then some (take (size - 1) text)
    else some (take (size - 1) text ++ take (size - ret - 1) close)

-- The string that the buffer holds afterwards.
unfoldable pub cmd_gen_switch_syntax : ℕ → ArgsStruct → Option (List ℕ)
unfolding switch_text bracket closing
cmd_gen_switch_syntax size a =
    if size == 0
    then none
    else Option.map (λ s. bracket a ++ s)
        (gen_in (size - length (bracket a)) (switch_text a) (closing a))

-- `%s` of the buffer. Without a terminated string there is nothing that the standard promises.
unfoldable pub stringy : ArgsStruct → List ℕ
unfolding cmd_gen_switch_syntax
stringy a = elim (cmd_gen_switch_syntax max_stringy_len a) [ none ↦ [] | some s ↦ s ]

-- The loop of `cmd_print_switches_help`, from the column `printed_in_line` on.
unfoldable pub print_switches : ℕ → List ArgsStruct → List ℕ
unfolding stringy
print_switches printed_in_line [] = []
print_switches printed_in_line (a ∷ others) =
    let text = stringy a in
    let wraps = ltb max_line_width (printed_in_line + length text) in
    let rest =
      print_switches (if wraps then length text else printed_in_line + length text) others in
    if wraps then b'\n' ∷ (text ++ rest) else text ++ rest

unfoldable pub cmd_print_switches_help : List ArgsStruct → List ℕ
unfolding print_switches
cmd_print_switches_help table =
    help_switch ++ b' ' ∷ (print_switches (length help_switch + 1) table ++ b'\n' ∷ [])

-- `%-*s`
unfoldable pub pad_right : ℕ → List ℕ → List ℕ
pad_right width s = s ++ replicate (width - length s) b' '

-- `%.*s`; a negative precision, `width - used` below 0, counts as none.
unfoldable pub cut : ℕ → ℕ → List ℕ → List ℕ
cut width used s = if leb used width then take (width - used) s else s

-- The loop over the lines behind the first, on fuel, of what is left of the description. Nothing when
-- the fuel has run out.
unfoldable pub print_rest : ℕ → List ℕ → Option (List ℕ)
unfolding cut
print_rest fuel [] = some []
print_rest zero (c ∷ cs) = none
print_rest (suc fuel) (c ∷ cs) =
    let line = cut max_line_width long_help_align (c ∷ cs) in
    Option.map (λ more. replicate long_help_align b' ' ++ (line ++ b'\n' ∷ more))
      (print_rest fuel (drop (length line) (c ∷ cs)))

unfoldable pub left_column : List ℕ → List ℕ
unfolding pad_right
left_column s = b' ' ∷ (pad_right (long_help_align - 1) s ++ codes ":")

-- One option: its syntax, and its description in the right column. A line takes a character at least,
-- so the length of the description is enough fuel.
unfoldable pub print_option : ArgsStruct → Option (List ℕ)
unfolding print_rest stringy cut left_column
print_option a =
    let left = left_column (stringy a) in
    let line = cut max_line_width (length left) a.descript in
    Option.map (λ more. left ++ (line ++ b'\n' ∷ more))
      (print_rest (length a.descript) (drop (length line) a.descript))

unfoldable pub print_options : List ArgsStruct → Option (List ℕ)
unfolding print_option
print_options [] = some []
print_options (a ∷ others) = do
  text ← print_option a
  more ← print_options others
  some (text ++ more)

abbrev pub help_note : List ℕ
help_note =
    codes "Note that which options are available depends on the enabled features/drivers\n\n"

unfoldable pub cmd_print_long_help : List ArgsStruct → Option (List ℕ)
unfolding cmd_print_switches_help print_options left_column
cmd_print_long_help table = do
  options ← print_options table
  some (
      cmd_print_switches_help table
      ++ (b'\n'
          ∷ (left_column help_switch ++ (help_descr ++ b'\n' ∷ (options ++ b'\n' ∷ help_note)))))
