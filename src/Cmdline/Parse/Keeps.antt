-- ===== src/Cmdline/Parse/Keeps.antt =====
-- What every option of the table keeps, the whole command line keeps.
use g_sierra.Common.{
  if_true, if_false, >>=-eq-some, ℕ, zero, suc, ◌≡◌, refl, sym, ◌∙◌, inl, inr, Option, none, some,
  Bool-cases, List, [], ◌∷◌, All,
}
use g_sierra.Cmdline.{
  OptionMatch, no_match, matched, value_missing, cmd_is_help_option, Libc, Value, ArgsStruct,
  Settings, Parsed, handled, not_found, help_shown, failed, cmd_args_set_defaults,
}
use g_sierra.Cmdline.Help.{cmd_print_long_help}
use g_sierra.Cmdline.Parse.{
  State, cmd_handle_this_matched_arg, parsed, on_match, find_option, cmd_parse_one_arg, CmdLine,
  accepted, on_parsed, is_testargs, handle_args, native_handle_cmd_line,
}

module _ (l : Libc) {Program : Type 0}
    (call : ℕ → List ℕ → ℕ → Settings l.Double Program → Option (Settings l.Double Program))
    (P : State l call → Type 0) where
  -- The handling of an option that matched keeps it.
  abbrev pub Keeps : ArgsStruct → Type 0
  Keeps a =
      (argv : List ℕ) (n : ℕ) (s s' : State l call)
      → P s
      → cmd_handle_this_matched_arg l call argv n a s ≡ some s'
      → P s'

  parsed-handled :
      (o : Option (State l call)) (s : State l call) → parsed l call o ≡ handled s → o ≡ some s
  parsed-handled none s h = cc
  parsed-handled (some t) s h = cc

  on_match-keeps :
      (argv : List ℕ) (a : ArgsStruct) (s s' : State l call) (rest : Parsed (State l call))
      (m : OptionMatch)
      → Keeps a
      → P s
      → (rest ≡ handled s' → P s')
      → on_match l call argv a s rest m ≡ handled s'
      → P s'
  on_match-keeps argv a s s' rest no_match own p later h = later h
  on_match-keeps argv a s s' rest (matched zero) own p later h = later h
  on_match-keeps argv a s s' rest (matched (suc n)) own p later h =
      own argv (suc n) s s' p (parsed-handled _ s' h)
  on_match-keeps argv a s s' rest value_missing own p later h = cc

  find_option-keeps :
      (argv : List ℕ) (table : List ArgsStruct) (s s' : State l call)
      → All Keeps table
      → P s
      → find_option l call argv table s ≡ handled s'
      → P s'
  unfolding find_option
  find_option-keeps argv [] s s' d p h = cc
  find_option-keeps argv (a ∷ others) s s' d p h =
      let later = λ (e : find_option l call argv others s ≡ handled s').
        find_option-keeps argv others s s' d.1 p e in
      elim (Bool-cases a.manual) [
        | inl m ↦ later (sym (if_true a.manual _ _ m) ∙ h)
        | inr m ↦
            on_match-keeps argv a s s' (find_option l call argv others s) _ d.0 p later
              (sym (if_false a.manual (find_option l call argv others s) _ m) ∙ h)
      ]

  on_parsed-accepted :
      (argv : List ℕ) (next : State l call → CmdLine l call) (r : Parsed (State l call))
      (rest : List (List ℕ)) (s' : State l call)
      → on_parsed l call argv next r ≡ accepted rest s'
      → (s₁ : State l call) × (r ≡ handled s₁) × (next s₁ ≡ accepted rest s')
  on_parsed-accepted argv next (handled s) rest s' h = (s, refl, h)
  on_parsed-accepted argv next not_found rest s' h = cc
  on_parsed-accepted argv next (help_shown text) rest s' h = cc
  on_parsed-accepted argv next failed rest s' h = cc

  parse_one-keeps :
      (argv : List ℕ) (table : List ArgsStruct) (s s' : State l call)
      → All Keeps table
      → P s
      → cmd_parse_one_arg l call argv table s ≡ handled s'
      → P s'
  unfolding cmd_parse_one_arg
  parse_one-keeps argv table s s' d p h = elim (Bool-cases (cmd_is_help_option argv)) [
    | inl e ↦ cc (
        sym (
          if_true (cmd_is_help_option argv) (help_shown (cmd_print_long_help table))
            (find_option l call argv table s) e)
        ∙ h)
    | inr e ↦
        find_option-keeps argv table s s' d p (
          sym (if_false (cmd_is_help_option argv) (help_shown (cmd_print_long_help table)) _ e) ∙ h)
  ]

  handle_args-keeps :
      (table : List ArgsStruct) (args rest : List (List ℕ)) (s s' : State l call)
      → All Keeps table
      → P s
      → handle_args l call table args s ≡ accepted rest s'
      → P s'
  unfolding handle_args cmd_parse_one_arg
  handle_args-keeps table [] rest s s' d p h = let same : s' ≡ s = cc in rw same p
  handle_args-keeps table (argv ∷ args) rest s s' d p h =
      elim (Bool-cases (is_testargs l call argv)) [
        | inl e ↦
            let same : s' ≡ s =
              cc (sym (if_true (is_testargs l call argv) (accepted args s) _ e) ∙ h) in
            rw same p
        | inr e ↦
            let (s₁, parses, more) =
              on_parsed-accepted argv (λ t. handle_args l call table args t)
                (cmd_parse_one_arg l call argv table s) rest s'
                (sym (if_false (is_testargs l call argv) (accepted args s) _ e) ∙ h) in
            handle_args-keeps table args rest s₁ s' d (parse_one-keeps argv table s s₁ d p parses)
              more
      ]

  -- The whole of it, when the defaults are no harm either.
  pub native_handle_cmd_line-keeps :
      (table : List ArgsStruct) (args rest : List (List ℕ)) (s s' : State l call)
      → All Keeps table
      → ((defaults : List (Value l.Double))
          → cmd_args_set_defaults l table s.store ≡ some defaults
          → P (record s { store = defaults }))
      → native_handle_cmd_line l call table args s ≡ some (accepted rest s')
      → P s'
  unfolding native_handle_cmd_line
  native_handle_cmd_line-keeps table args rest s s' d start h =
      let (defaults, e, reads) = >>=-eq-some (cmd_args_set_defaults l table s.store) _ _ h in
      handle_args-keeps table args rest (record s { store = defaults }) s' d (start defaults e) (cc)
