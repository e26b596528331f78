-- ===== src/Cmdline/Typed.antt =====
-- The variables of the options keep their types: what is written to a variable, as a default or from
-- the command line, is a value of the type that the table gives it.
pub mod Line
use g_sierra.Common.{
  if_true, if_false, ◌>>=◌, >>=-eq-some, ℕ, zero, suc, ◌≡◌, ◌≢◌, refl, sym, ◌∙◌, ap, ◌⊎◌, inl, inr,
  Bool, true, false, not, Option, none, some, Option-cases, Bool-cases, List, [], ◌∷◌,
  if◌then◌else◌, get_elem?, set, All, drop, arith,
}
use g_sierra.Common.Int.{pos}
use g_sierra.Common.{◌^◌, ◌-◌}
use g_sierra.Cmdline.{
  OptionMatch, no_match, matched, value_missing, cmd_is_option, cmd_is_help_option, same_text,
  same_text_any_case, OptionType, no_storage, type_b, type_s, type_u, type_uu, type_i, type_ii,
  type_d, type_l, type_other, Libc, no_rest, Value, bool_value, string_value, uint32_value,
  uint64_value, int32_value, int64_value, double_value, ReadResult, stored, bad_value, bad_type,
  ArgsStruct, Settings, Parsed, handled, not_found, help_shown, failed, cmd_read_option_value,
  default_value, default_at, cmd_args_set_defaults,
}
use g_sierra.Cmdline.Parse.{
  State, is_type_b, put_read, store_at, call_if_found, store_value, cmd_handle_this_matched_arg,
  parsed, on_match, find_option, cmd_parse_one_arg, CmdLine, accepted, help, rejected, on_parsed,
  is_testargs, handle_args, native_handle_cmd_line,
}

module _ {D : Type 0} where
  -- The C type behind the letter of an option.
  abbrev pub has_type : OptionType → Value D → Bool
  has_type type_b (bool_value b) = true
  has_type type_s (string_value s) = true
  has_type type_u (uint32_value n) = true
  has_type type_uu (uint64_value n) = true
  has_type type_i (int32_value z) = true
  has_type type_ii (int64_value z) = true
  has_type type_d (double_value d) = true
  has_type t v = false

  -- `Γ` is the declared type of each variable.
  unfoldable pub IsTyped : (ℕ → OptionType) → List (Value D) → Type 0
  IsTyped Γ store = (i : ℕ) (v : Value D) → get_elem? store i ≡ some v → has_type (Γ i) v ≡ true

-- The option writes to a variable of its own type.
abbrev pub IsDeclared : (ℕ → OptionType) → ArgsStruct → Type 0
IsDeclared Γ a = (i : ℕ) → a.dest ≡ some i → a.type ≡ Γ i

get_elem?-set {ℓ} :
    {A : Type ℓ} (xs : List A) (i j : ℕ) (v w : A)
    → get_elem? (set xs i v) j ≡ some w
    → ((i ≡ j) × (w ≡ v)) ⊎ (get_elem? xs j ≡ some w)
get_elem?-set [] i j v w h = inr h
get_elem?-set (x ∷ xs) zero zero v w h = inl (refl, cc)
get_elem?-set (x ∷ xs) zero (suc j) v w h = inr h
get_elem?-set (x ∷ xs) (suc i) zero v w h = inr h
get_elem?-set (x ∷ xs) (suc i) (suc j) v w h = elim (get_elem?-set xs i j v w h) [
  | inl (e, f) ↦ inl (ap suc e, f)
  | inr e ↦ inr e
]

pub IsTyped-set :
    {D : Type 0} (Γ : ℕ → OptionType) (store : List (Value D)) (i : ℕ) (v : Value D)
    → IsTyped Γ store
    → has_type (Γ i) v ≡ true
    → IsTyped Γ (set store i v)
unfolding IsTyped
IsTyped-set Γ store i v p t j w h = elim (get_elem?-set store i j v w h) [
  | inl (e, f) ↦ rw (f, ← e) t
  | inr g ↦ p j w g
]

module _ (l : Libc) where
  pub no_rest-has_type :
      (t : OptionType) (v w : Value l.Double) (rest : List ℕ)
      → has_type t v ≡ true
      → no_rest v rest ≡ stored w
      → has_type t w ≡ true
  no_rest-has_type t v w [] p h = let same : w ≡ v = cc in rw same p
  no_rest-has_type t v w (c ∷ cs) p h = cc

  -- A value that was read has the type it was read at.
  pub cmd_read_option_value-has_type :
      (str : List ℕ) (t : OptionType) (v : Value l.Double)
      → cmd_read_option_value l str t ≡ stored v
      → has_type t v ≡ true
  unfolding cmd_read_option_value
  cmd_read_option_value-has_type str no_storage v h = cc
  cmd_read_option_value-has_type str type_b v h = ground arith
  cmd_read_option_value-has_type str type_s v h =
      let same : v ≡ string_value (some str) = cc in rw same refl
  cmd_read_option_value-has_type str type_u v h = no_rest-has_type type_u _ v _ refl h
  cmd_read_option_value-has_type str type_uu v h = no_rest-has_type type_uu _ v _ refl h
  cmd_read_option_value-has_type str type_i v h = no_rest-has_type type_i _ v _ refl h
  cmd_read_option_value-has_type str type_ii v h = no_rest-has_type type_ii _ v _ refl h
  cmd_read_option_value-has_type str type_d v h = no_rest-has_type type_d _ v _ refl h
  cmd_read_option_value-has_type str type_l v h = cc
  cmd_read_option_value-has_type str type_other v h = cc

  pub default_value-has_type :
      (t : OptionType) (v : Value l.Double)
      → default_value l t ≡ some (some v)
      → has_type t v ≡ true
  default_value-has_type no_storage v h = cc
  default_value-has_type type_b v h = let same : v ≡ bool_value false = cc in rw same refl
  default_value-has_type type_s v h = let same : v ≡ string_value none = cc in rw same refl
  default_value-has_type type_u v h = let same : v ≡ uint32_value (2 ^ 32 - 1) = cc in rw same refl
  default_value-has_type type_uu v h = let same : v ≡ uint64_value (2 ^ 64 - 1) = cc in rw same refl
  default_value-has_type type_i v h =
      let same : v ≡ int32_value (pos (2 ^ 31 - 1)) = cc in rw same refl
  default_value-has_type type_ii v h =
      let same : v ≡ int64_value (pos (2 ^ 63 - 1)) = cc in rw same refl
  default_value-has_type type_d v h = let same : v ≡ double_value l.nan = cc in rw same refl
  default_value-has_type type_l v h = cc
  default_value-has_type type_other v h = cc

  pub default_at-IsTyped :
      (Γ : ℕ → OptionType) (t : OptionType) (dest : Option ℕ) (d : Option (Option (Value l.Double)))
      (store store' : List (Value l.Double))
      → ((i : ℕ) → dest ≡ some i → t ≡ Γ i)
      → ((v : Value l.Double) → d ≡ some (some v) → has_type t v ≡ true)
      → IsTyped Γ store
      → default_at l dest d store ≡ some store'
      → IsTyped Γ store'
  default_at-IsTyped Γ t none d store store' own typed p h =
      let same : store' ≡ store = cc in rw same p
  default_at-IsTyped Γ t (some dest) none store store' own typed p h = cc
  default_at-IsTyped Γ t (some dest) (some none) store store' own typed p h =
      let same : store' ≡ store = cc in rw same p
  default_at-IsTyped Γ t (some dest) (some (some v)) store store' own typed p h =
      let same : store' ≡ set store dest v = cc in
      rw same (IsTyped-set Γ store dest v p (rw (← own dest refl) (typed v refl)))

  pub defaults-IsTyped :
      (Γ : ℕ → OptionType) (table : List ArgsStruct) (store store' : List (Value l.Double))
      → All (IsDeclared Γ) table
      → IsTyped Γ store
      → cmd_args_set_defaults l table store ≡ some store'
      → IsTyped Γ store'
  unfolding cmd_args_set_defaults
  defaults-IsTyped Γ [] store store' d p h = let same : store' ≡ store = cc in rw same p
  defaults-IsTyped Γ (a ∷ others) store store' d p h =
      let (s, e, rest) =
        >>=-eq-some (default_at l a.dest (default_value l a.type) store) _ store' h in
      defaults-IsTyped Γ others s store' d.1
        (default_at-IsTyped Γ a.type a.dest (default_value l a.type) store s d.0
          (default_value-has_type a.type) p e)
        rest

  pub switch_type :
      (t : OptionType) (v : Value l.Double)
      → (if is_type_b t then stored (bool_value true) else bad_type) ≡ stored v
      → has_type t v ≡ true
  switch_type type_b v h = let same : v ≡ bool_value true = cc in rw same refl
  switch_type other v h = cc
