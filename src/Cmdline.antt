-- ===== src/Cmdline.antt =====
-- samples/mesh/boards/posix/native_posix/cmdline_common.c: reading the options of the command line.
-- Strings are the characters before the terminating zero. The number readers of the C library are a
-- record; what they leave unread is a string.
pub mod Parse
pub mod Table
pub mod Options
pub mod Match
pub mod Typed
pub mod Help
use g_sierra.Common.{
  ◌>>=◌, ℕ, zero, suc, ◌+◌, ◌-◌, ◌%◌, ◌^◌, Bool, true, false, not, ◌&&◌, ◌||◌, Option, none, some,
  List, [], ◌∷◌, ltb, leb, ◌==◌, if◌then◌else◌, length, drop, set, codes, u32, u64,
}
use g_sierra.Common.Int.{ℤ, pos, negsuc}

-- `strcmp(a, b) == 0`
unfoldable pub same_text : List ℕ → List ℕ → Bool
same_text [] [] = true
same_text [] (y ∷ ys) = false
same_text (x ∷ xs) [] = false
same_text (x ∷ xs) (y ∷ ys) = x == y && same_text xs ys

abbrev pub lower : ℕ → ℕ
lower c = if leb b'A' c && leb c b'Z' then c + 32 else c

-- `strcasecmp(a, b) == 0`
unfoldable pub same_text_any_case : List ℕ → List ℕ → Bool
same_text_any_case [] [] = true
same_text_any_case [] (y ∷ ys) = false
same_text_any_case (x ∷ xs) [] = false
same_text_any_case (x ∷ xs) (y ∷ ys) = lower x == lower y && same_text_any_case xs ys

-- A dash at the start is passed over.
abbrev pub skip_dash : List ℕ → List ℕ
skip_dash [] = []
skip_dash (c ∷ cs) = if c == b'-' then cs else c ∷ cs

-- The result 0, a result above 0, and the exit on an option without its value.
pub data OptionMatch : Type 0 where
  no_match : OptionMatch
  matched : ℕ → OptionMatch
  value_missing : OptionMatch

abbrev pub is_separator : ℕ → Bool
is_separator c = c == b':' || c == b'='

-- The test behind the loop: a value must follow at `of`.
abbrev pub with_value_at : ℕ → List ℕ → OptionMatch
with_value_at of [] = value_missing
with_value_at of (c ∷ cs) = matched of

-- The loop, on the rest of the argument from `of` on and the rest of the option.
unfoldable pub match_option : ℕ → List ℕ → List ℕ → OptionMatch
match_option of [] [] = value_missing
match_option of (c ∷ cs) [] = if is_separator c then with_value_at (of + 1) cs else no_match
match_option of [] (o ∷ os) = no_match
match_option of (c ∷ cs) (o ∷ os) =
    let rest = match_option (of + 1) cs os in if not (c == o) then no_match else rest

abbrev pub dashes : List ℕ → ℕ
dashes arg = length arg - length (skip_dash (skip_dash arg))

unfoldable pub cmd_is_option : List ℕ → List ℕ → Bool → OptionMatch
unfolding same_text match_option
cmd_is_option arg option with_value =
    let tail = skip_dash (skip_dash arg) in
    if not with_value
    then if same_text tail option then matched (dashes arg + length option) else no_match
    else match_option (dashes arg) tail option

unfoldable pub cmd_is_help_option : List ℕ → Bool
unfolding same_text_any_case
cmd_is_help_option arg =
    let tail = skip_dash (skip_dash arg) in
    same_text_any_case tail (codes "?")
    || same_text_any_case tail (codes "h")
    || same_text_any_case tail (codes "help")

-- `type`: 0, the letters that `cmd_read_option_value` knows, `l` of lists, and all others.
pub data OptionType : Type 0 where
  no_storage type_b type_s type_u type_uu type_i type_ii type_d type_l type_other : OptionType

pub record Libc : Type 1 where
  pub Double : Type 0
  pub nan : Double
  pub strtoul : List ℕ → ℕ × List ℕ
  pub strtoull : List ℕ → ℕ × List ℕ
  pub strtol : List ℕ → ℤ × List ℕ
  pub strtoll : List ℕ → ℤ × List ℕ
  pub strtod : List ℕ → Double × List ℕ

-- The result of casting a `long` to `int32_t`.
abbrev pub low_word : ℤ → ℕ
low_word (pos n) = u32 n
low_word (negsuc n) = 2 ^ 32 - 1 - u32 n

abbrev pub to_int32 : ℤ → ℤ
to_int32 z =
    if ltb (low_word z) (2 ^ 31) then pos (low_word z) else negsuc (2 ^ 32 - 1 - low_word z)

-- What `*dest` holds; nothing for a null pointer.
pub data Value (Double : Type 0) : Type 0 where
  bool_value : Bool → Value Double
  string_value : Option (List ℕ) → Value Double
  uint32_value uint64_value : ℕ → Value Double
  int32_value int64_value : ℤ → Value Double
  double_value : Double → Value Double

-- A value, or the exit on a bad value or a bad type.
pub data ReadResult (Double : Type 0) : Type 0 where
  stored : Value Double → ReadResult Double
  bad_value bad_type : ReadResult Double

abbrev pub no_rest : {D : Type 0} → Value D → List ℕ → ReadResult D
no_rest v [] = stored v
no_rest v (c ∷ cs) = bad_value

-- An option of the table. `dest` is an index of the store and `call_when_found` a routine; nothing
-- for `NULL`.
pub record ArgsStruct : Type 0 where
  pub manual : Bool
  pub is_mandatory : Bool
  pub is_switch : Bool
  pub option : List ℕ
  pub name : List ℕ
  pub type : OptionType
  pub dest : Option ℕ
  pub call_when_found : Option ℕ
  pub descript : List ℕ

-- The variables that options write, and the rest of the program, which the callbacks change.
pub record Settings (Double Program : Type 0) : Type 0 where
  pub store : List (Value Double)
  pub program : Program

-- How the reading of an argument ends: the process may exit, after the help text, which it carries, or
-- with an error.
pub data Parsed (S : Type 0) : Type 0 where
  handled : S → Parsed S
  not_found : Parsed S
  help_shown : Option (List ℕ) → Parsed S
  failed : Parsed S

module _ (l : Libc) where
  open l use {Double, nan, strtoul, strtoull, strtol, strtoll, strtod}

  unfoldable pub cmd_read_option_value : List ℕ → OptionType → ReadResult Double
  unfolding same_text same_text_any_case
  cmd_read_option_value str type_b =
      if same_text_any_case str (codes "false")
      then stored (bool_value false)
      else if same_text str (codes "0")
      then stored (bool_value false)
      else if same_text_any_case str (codes "true")
      then stored (bool_value true)
      else if same_text str (codes "1")
      then stored (bool_value true)
      else bad_value
  cmd_read_option_value str type_s = stored (string_value (some str))
  cmd_read_option_value str type_u =
      let (v, rest) = strtoul str in no_rest (uint32_value (u32 v)) rest
  cmd_read_option_value str type_uu =
      let (v, rest) = strtoull str in no_rest (uint64_value (u64 v)) rest
  cmd_read_option_value str type_i =
      let (v, rest) = strtol str in no_rest (int32_value (to_int32 v)) rest
  cmd_read_option_value str type_ii = let (v, rest) = strtoll str in no_rest (int64_value v) rest
  cmd_read_option_value str type_d = let (v, rest) = strtod str in no_rest (double_value v) rest
  cmd_read_option_value str no_storage = bad_type
  cmd_read_option_value str type_l = bad_type
  cmd_read_option_value str type_other = bad_type

  -- The default of a type: nothing for the exit, and `some none` for a type without storage.
  abbrev pub default_value : OptionType → Option (Option (Value Double))
  default_value no_storage = some none
  default_value type_b = some (some (bool_value false))
  default_value type_s = some (some (string_value none))
  default_value type_u = some (some (uint32_value (2 ^ 32 - 1)))
  default_value type_uu = some (some (uint64_value (2 ^ 64 - 1)))
  default_value type_i = some (some (int32_value (pos (2 ^ 31 - 1))))
  default_value type_ii = some (some (int64_value (pos (2 ^ 63 - 1))))
  default_value type_d = some (some (double_value nan))
  default_value type_l = none
  default_value type_other = none

  -- One round of the loop, on `dest` and the default.
  abbrev pub default_at :
      Option ℕ → Option (Option (Value Double)) → List (Value Double) → Option (List (Value Double))
  default_at none d store = some store
  default_at (some dest) none store = none
  default_at (some dest) (some none) store = some store
  default_at (some dest) (some (some v)) store = some (set store dest v)

  unfoldable pub cmd_args_set_defaults :
      List ArgsStruct → List (Value Double) → Option (List (Value Double))
  cmd_args_set_defaults [] store = some store
  cmd_args_set_defaults (a ∷ others) store = do
    store' ← default_at a.dest (default_value a.type) store
    cmd_args_set_defaults others store'
