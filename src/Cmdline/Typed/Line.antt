-- ===== src/Cmdline/Typed/Line.antt =====
-- cmdline_common.c and cmdline.c: reading a whole command line keeps the types of the variables.
use g_sierra.Common.{
  >>=-eq-some, ℕ, ◌≡◌, refl, inl, inr, true, Option, none, some, Bool-cases, List, [], ◌∷◌,
  if◌then◌else◌, set, All, drop,
}
use g_sierra.Cmdline.{
  OptionType, Libc, Value, bool_value, ReadResult, stored, bad_value, bad_type, ArgsStruct,
  Settings, cmd_read_option_value,
}
use g_sierra.Cmdline.Typed.{
  has_type, IsTyped, IsDeclared, IsTyped-set, cmd_read_option_value-has_type, defaults-IsTyped,
  switch_type,
}
use g_sierra.Cmdline.Parse.Keeps.{Keeps, native_handle_cmd_line-keeps}
use g_sierra.Cmdline.Parse.{
  State, is_type_b, put_read, store_at, call_if_found, store_value, cmd_handle_this_matched_arg,
  accepted, native_handle_cmd_line,
}

module _ (l : Libc) {Program : Type 0}
    (call : ℕ → List ℕ → ℕ → Settings l.Double Program → Option (Settings l.Double Program))
    (Γ : ℕ → OptionType)
    (call_keeps : (f : ℕ) (argv : List ℕ) (n : ℕ) (s s' : Settings l.Double Program)
      → IsTyped Γ s.store
      → call f argv n s ≡ some s'
      → IsTyped Γ s'.store) where
  put_read-IsTyped :
      (t : OptionType) (dest : ℕ) (r : ReadResult l.Double) (s s' : State l call)
      → t ≡ Γ dest
      → ((v : Value l.Double) → r ≡ stored v → has_type t v ≡ true)
      → IsTyped Γ s.store
      → put_read l call dest r s ≡ some s'
      → IsTyped Γ s'.store
  put_read-IsTyped t dest (stored v) s s' own typed p h =
      let same : s' ≡ record s { store = set s.store dest v } = cc in
      rw same (IsTyped-set Γ s.store dest v p (rw (← own) (typed v refl)))
  put_read-IsTyped t dest bad_value s s' own typed p h = cc
  put_read-IsTyped t dest bad_type s s' own typed p h = cc

  called-IsTyped :
      (f : Option ℕ) (argv : List ℕ) (n : ℕ) (s s' : State l call)
      → IsTyped Γ s.store
      → call_if_found l call f argv n s ≡ some s'
      → IsTyped Γ s'.store
  called-IsTyped none argv n s s' p h = let same : s' ≡ s = cc in rw same p
  called-IsTyped (some f) argv n s s' p h = call_keeps f argv n s s' p h

  store_at-IsTyped :
      (argv : List ℕ) (n : ℕ) (a : ArgsStruct) (dest : Option ℕ) (s s' : State l call)
      → ((i : ℕ) → dest ≡ some i → a.type ≡ Γ i)
      → IsTyped Γ s.store
      → store_at l call argv n a dest s ≡ some s'
      → IsTyped Γ s'.store
  store_at-IsTyped argv n a none s s' own p h = let same : s' ≡ s = cc in rw same p
  store_at-IsTyped argv n a (some dest) s s' own p h = elim (Bool-cases a.is_switch) [
    | inl is_switch ↦
        put_read-IsTyped a.type dest
          (if is_type_b a.type then stored (bool_value true) else bad_type) s s' (own dest refl)
          (λ v e. switch_type l a.type v e) p (rw is_switch at h)
    | inr valued ↦
        put_read-IsTyped a.type dest (cmd_read_option_value l (drop n argv) a.type) s s'
          (own dest refl) (λ v e. cmd_read_option_value-has_type l (drop n argv) a.type v e) p
          (rw valued at h)
  ]

  matched-IsTyped :
      (argv : List ℕ) (n : ℕ) (a : ArgsStruct) (s s' : State l call)
      → IsDeclared Γ a
      → IsTyped Γ s.store
      → cmd_handle_this_matched_arg l call argv n a s ≡ some s'
      → IsTyped Γ s'.store
  unfolding cmd_handle_this_matched_arg store_value
  matched-IsTyped argv n a s s' own p h =
      let (s₁, e, rest) = >>=-eq-some (store_at l call argv n a a.dest s) _ s' h in
      called-IsTyped a.call_when_found argv n s₁ s' (store_at-IsTyped argv n a a.dest s s₁ own p e)
        rest

  declared-Keeps :
      (table : List ArgsStruct)
      → All (IsDeclared Γ) table
      → All (Keeps l call (λ (t : State l call). IsTyped Γ t.store)) table
  declared-Keeps [] d = tt
  declared-Keeps (a ∷ others) d =
      (λ argv n s s' p h. matched-IsTyped argv n a s s' d.0 p h, declared-Keeps others d.1)

  -- Whatever the command line, when it is read to its end every variable of the options holds a
  -- value of its own type, the defaults included: if each option of the table writes to a variable
  -- of its type, the variables hold such values before, and the callbacks keep that so.
  pub native_handle_cmd_line-IsTyped :
      (table : List ArgsStruct) (args rest : List (List ℕ)) (s s' : State l call)
      → All (IsDeclared Γ) table
      → IsTyped Γ s.store
      → native_handle_cmd_line l call table args s ≡ some (accepted rest s')
      → IsTyped Γ s'.store
  native_handle_cmd_line-IsTyped table args rest s s' d p h =
      native_handle_cmd_line-keeps l call (λ (t : State l call). IsTyped Γ t.store) table args rest
        s s' (declared-Keeps table d)
        (λ defaults e. defaults-IsTyped l Γ table s.store defaults d p e) h
