-- ===== src/Cmdline/Parse.antt =====
-- cmdline_common.c and cmdline.c: an argument is looked up in the table of options, and the whole
-- command line is read. `call` runs a callback on the argument and the offset of its value; nothing
-- when it exits.
pub mod Keeps
use g_sierra.Common.{
  ◌>>=◌, ℕ, zero, suc, Bool, true, false, not, Option, none, some, List, [], ◌∷◌, if◌then◌else◌,
  drop, set, codes,
}
use g_sierra.Cmdline.{
  OptionMatch, no_match, matched, value_missing, cmd_is_option, cmd_is_help_option, OptionType,
  type_b, Libc, bool_value, ReadResult, stored, bad_value, bad_type, ArgsStruct, Settings, Parsed,
  handled, not_found, help_shown, failed, cmd_read_option_value, cmd_args_set_defaults,
}
use g_sierra.Cmdline.Help.{cmd_print_long_help}

abbrev pub is_type_b : OptionType → Bool
is_type_b type_b = true
is_type_b other = false

module _ (l : Libc) {Program : Type 0}
    (call : ℕ → List ℕ → ℕ → Settings l.Double Program → Option (Settings l.Double Program)) where
  abbrev pub State : Type 0
  State = Settings l.Double Program

  abbrev pub put_read : ℕ → ReadResult l.Double → State → Option State
  put_read dest (stored v) s = some (record s { store = set s.store dest v })
  put_read dest bad_value s = none
  put_read dest bad_type s = none

  abbrev pub store_at : List ℕ → ℕ → ArgsStruct → Option ℕ → State → Option State
  store_at argv offset a none s = some s
  store_at argv offset a (some dest) s =
      if a.is_switch
      then put_read dest (if is_type_b a.type then stored (bool_value true) else bad_type) s
      else put_read dest (cmd_read_option_value l (drop offset argv) a.type) s

  -- The part on `dest`: a switch is set to true, another option's value is read.
  unfoldable pub store_value : List ℕ → ℕ → ArgsStruct → State → Option State
  unfolding cmd_read_option_value
  store_value argv offset a s = store_at argv offset a a.dest s

  abbrev pub call_if_found : Option ℕ → List ℕ → ℕ → State → Option State
  call_if_found none argv offset s = some s
  call_if_found (some f) argv offset s = call f argv offset s

  unfoldable pub cmd_handle_this_matched_arg : List ℕ → ℕ → ArgsStruct → State → Option State
  unfolding store_value
  cmd_handle_this_matched_arg argv offset a s = do
    s' ← store_value argv offset a s
    call_if_found a.call_when_found argv offset s'

  abbrev pub parsed : Option State → Parsed State
  parsed none = failed
  parsed (some s) = handled s

  -- What the loop does with the result of `cmd_is_option`; `rest` is its next round. A match of
  -- length 0 counts as none.
  abbrev pub on_match : List ℕ → ArgsStruct → State → Parsed State → OptionMatch → Parsed State
  on_match argv a s rest no_match = rest
  on_match argv a s rest (matched zero) = rest
  on_match argv a s rest (matched (suc n)) = parsed (cmd_handle_this_matched_arg argv (suc n) a s)
  on_match argv a s rest value_missing = failed

  -- The loop over the table.
  unfoldable pub find_option : List ℕ → List ArgsStruct → State → Parsed State
  unfolding cmd_is_option cmd_handle_this_matched_arg
  find_option argv [] s = not_found
  find_option argv (a ∷ others) s =
      let rest = find_option argv others s in
      if a.manual
      then rest
      else on_match argv a s rest (cmd_is_option argv a.option (not a.is_switch))

  unfoldable pub cmd_parse_one_arg : List ℕ → List ArgsStruct → State → Parsed State
  unfolding cmd_is_help_option find_option cmd_print_long_help
  cmd_parse_one_arg argv table s =
      if cmd_is_help_option argv
      then help_shown (cmd_print_long_help table)
      else find_option argv table s

  -- The end of the command line with the arguments left to the tests, or an exit: after the help, or
  -- because of an argument.
  pub data CmdLine : Type 0 where
    accepted : List (List ℕ) → State → CmdLine
    help : Option (List ℕ) → CmdLine
    rejected : List ℕ → CmdLine

  abbrev pub is_testargs : List ℕ → Bool
  is_testargs argv = elim (cmd_is_option argv (codes "testargs") false) [
    | no_match ↦ false
    | matched zero ↦ false
    | matched (suc n) ↦ true
    | value_missing ↦ false
  ]

  -- What follows an argument that was looked up: the next ones, or an exit.
  abbrev pub on_parsed : List ℕ → (State → CmdLine) → Parsed State → CmdLine
  on_parsed argv next (handled s) = next s
  on_parsed argv next not_found = rejected argv
  on_parsed argv next (help_shown text) = help text
  on_parsed argv next failed = rejected argv

  -- The loop of `native_handle_cmd_line`, on the arguments behind the program's name.
  unfoldable pub handle_args : List ArgsStruct → List (List ℕ) → State → CmdLine
  unfolding cmd_parse_one_arg cmd_is_option
  handle_args table [] s = accepted [] s
  handle_args table (argv ∷ args) s =
      if is_testargs argv
      then accepted args s
      else on_parsed argv (λ s'. handle_args table args s') (cmd_parse_one_arg argv table s)

  -- Behind the registration of the options: the defaults, then the arguments. Nothing when an option
  -- has a type without a default.
  unfoldable pub native_handle_cmd_line : List ArgsStruct → List (List ℕ) → State → Option CmdLine
  unfolding handle_args cmd_args_set_defaults
  native_handle_cmd_line table args s = do
    defaults ← cmd_args_set_defaults l table s.store
    some (handle_args table args (record s { store = defaults }))
