-- ===== src/Tests/Cmdline.antt =====
-- The command line and its help at fixed inputs.
use g_sierra.Common.{
  arith, take, ℕ, zero, suc, ◌≤◌, ◌+◌, ◌-◌, ◌*◌, ◌≡◌, refl, true, false, Option, none, some, List,
  [], ◌∷◌, ◌++◌, ◌&&◌, leb, if◌then◌else◌, length, codes,
}
use g_sierra.Common.Int.{pos}
use g_sierra.Cmdline.{
  OptionType, type_u, type_b, no_storage, Libc, uint32_value, bool_value, ArgsStruct, Settings,
  cmd_read_option_value, cmd_args_set_defaults, same_text, same_text_any_case, match_option,
  cmd_is_option, cmd_is_help_option,
}
use g_sierra.Cmdline.Parse.{
  native_handle_cmd_line, accepted, handle_args, cmd_parse_one_arg, find_option,
  cmd_handle_this_matched_arg, store_value,
}
use g_sierra.Cmdline.Typed.{IsTyped, IsDeclared}
use g_sierra.Cmdline.Typed.Line.{native_handle_cmd_line-IsTyped}
use g_sierra.Cmdline.Help.{
  cmd_gen_switch_syntax, switch_text, bracket, closing, stringy, print_option, left_column,
  print_switches, cmd_print_long_help, cmd_print_switches_help,
}
use g_sierra.Cmdline.Help.Syntax.{cmd_gen_switch_syntax_lem, usage}
use g_sierra.Cmdline.Help.Fits.{fits, plain-IsLine}
use g_sierra.Cmdline.Help.Columns.{IsPlain, cmd_print_long_help-fits}
use g_sierra.Cmdline.Help.Wrap.{print_option_lem, indented, IsWrapped}

-- A C library that reads decimal numbers.
abbrev pub decimal : List ℕ → ℕ → ℕ × List ℕ
decimal [] n = (n, [])
decimal (c ∷ cs) n =
    let more = decimal cs (10 * n + (c - b'0')) in
    if leb b'0' c && leb c b'9' then more else (n, c ∷ cs)

abbrev libc : Libc
libc = record {
  Double = ℕ;
  nan = 0;
  strtoul = λ s. decimal s 0;
  strtoull = λ s. decimal s 0;
  strtol = λ s. let (n, rest) = decimal s 0 in (pos n, rest);
  strtoll = λ s. let (n, rest) = decimal s 0 in (pos n, rest);
  strtod = λ s. decimal s 0;
}

abbrev count_option : ArgsStruct
count_option = record {
  manual = false;
  is_mandatory = true;
  is_switch = false;
  option = codes "count";
  name = codes "number";
  type = type_u;
  dest = some 0;
  call_when_found = none;
  descript = codes "How many there are";
}

abbrev fast_option : ArgsStruct
fast_option = record {
  manual = false;
  is_mandatory = false;
  is_switch = true;
  option = codes "fast";
  name = codes "";
  type = type_b;
  dest = some 1;
  call_when_found = some 0;
  descript = codes "Do it fast";
}

abbrev table : List ArgsStruct
table = count_option ∷ fast_option ∷ []

abbrev declared : ℕ → OptionType
declared zero = type_u
declared (suc zero) = type_b
declared (suc (suc i)) = no_storage

abbrev before : Settings ℕ ℕ
before = record { store = uint32_value 0 ∷ bool_value false ∷ []; program = 0 }

abbrev call : ℕ → List ℕ → ℕ → Settings ℕ ℕ → Option (Settings ℕ ℕ)
call f argv n s = some (record s { program = n })

abbrev after : Settings ℕ ℕ
after = record { store = uint32_value 42 ∷ bool_value true ∷ []; program = 6 }

abbrev args : List (List ℕ)
args = codes "--count=42" ∷ codes "--fast" ∷ codes "--testargs" ∷ codes "x" ∷ []

reads : native_handle_cmd_line libc call table args before ≡ some (accepted (codes "x" ∷ []) after)
unfolding native_handle_cmd_line handle_args cmd_parse_one_arg find_option
    cmd_handle_this_matched_arg store_value cmd_read_option_value cmd_args_set_defaults
    cmd_is_option cmd_is_help_option match_option same_text same_text_any_case
reads = refl

count_option-IsDeclared : IsDeclared declared count_option
count_option-IsDeclared zero e = refl
count_option-IsDeclared (suc i) e = cc

fast_option-IsDeclared : IsDeclared declared fast_option
fast_option-IsDeclared zero e = cc
fast_option-IsDeclared (suc zero) e = refl
fast_option-IsDeclared (suc (suc i)) e = cc

before-IsTyped : IsTyped declared before.store
unfolding IsTyped
before-IsTyped zero v e = let same : v ≡ uint32_value 0 = cc in rw same refl
before-IsTyped (suc zero) v e = let same : v ≡ bool_value false = cc in rw same refl
before-IsTyped (suc (suc i)) v e = cc

call_keeps :
    (f : ℕ) (argv : List ℕ) (n : ℕ) (s s' : Settings ℕ ℕ)
    → IsTyped declared s.store
    → call f argv n s ≡ some s'
    → IsTyped declared s'.store
call_keeps f argv n s s' typed e = let same : s' ≡ record s { program = n } = cc in rw same typed

native_handle_cmd_line-IsTyped_example : IsTyped declared after.store
native_handle_cmd_line-IsTyped_example =
    native_handle_cmd_line-IsTyped libc call declared call_keeps table args (codes "x" ∷ []) before
      after (count_option-IsDeclared, (fast_option-IsDeclared, tt)) before-IsTyped reads

-- The syntax in a buffer of 10 bytes: the text is cut.
cmd_gen_switch_syntax_lem_example :
    cmd_gen_switch_syntax 10 count_option ≡ some (take 9 (usage count_option))
cmd_gen_switch_syntax_lem_example = cmd_gen_switch_syntax_lem 10 count_option (omega arith)

usage_runs : usage count_option ≡ codes "-count=<number> "
unfolding switch_text bracket closing
usage_runs = refl

fast_runs : usage fast_option ≡ codes "[-fast] "
unfolding switch_text bracket closing
fast_runs = refl

-- An option whose names have the longest allowed lengths does not fit: the closing bracket is cut.
abbrev longest : List ℕ
longest = codes "abcdefghijklmnopqrstuvwxyzabcdef"

abbrev longest_option : ArgsStruct
longest_option = record count_option { is_mandatory = false; option = longest; name = longest }

longest_is_cut :
    stringy longest_option ≡ codes "[-" ++ (longest ++ (codes "=<" ++ (longest ++ codes ">")))
unfolding stringy cmd_gen_switch_syntax switch_text bracket closing
longest_is_cut = refl

count_option-IsPlain : IsPlain count_option
count_option-IsPlain = record {
  plain_option = plain-IsLine (codes "count") refl;
  plain_name = plain-IsLine (codes "number") refl;
  plain_descript = plain-IsLine (codes "How many there are") refl;
}

fast_option-IsPlain : IsPlain fast_option
fast_option-IsPlain = record {
  plain_option = plain-IsLine (codes "fast") refl;
  plain_name = plain-IsLine (codes "") refl;
  plain_descript = plain-IsLine (codes "Do it fast") refl;
}

cmd_print_long_help-fits_example :
    (text : List ℕ) × (cmd_print_long_help table ≡ some text) × (fits 0 text ≡ true)
cmd_print_long_help-fits_example =
    cmd_print_long_help-fits table (count_option-IsPlain, (fast_option-IsPlain, tt))

print_option_lem_example :
    (line : List ℕ) × (lines : List (List ℕ)) × (print_option fast_option
      ≡ some (left_column (stringy fast_option) ++ (line ++ b'\n' ∷ indented lines)))
    × IsWrapped 70 fast_option.descript (line ∷ lines)
    × (length (left_column (stringy fast_option)) + length line ≤ 100)
print_option_lem_example = print_option_lem fast_option

switches_help_runs :
    cmd_print_switches_help table ≡ codes "[-h] [--h] [--help] [-?] -count=<number> [-fast] \n"
unfolding cmd_print_switches_help print_switches stringy cmd_gen_switch_syntax switch_text bracket
    closing
switches_help_runs = refl
