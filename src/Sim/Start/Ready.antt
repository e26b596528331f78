-- ===== src/Sim/Start/Ready.antt =====
-- The board that `posix_init` leaves.
use g_sierra.Common.{
  >>=-eq-some, ℕ, ◌≡◌, refl, ◌∙◌, ap, Bool, true, false, Option, none, some, List, [], ◌∷◌,
  if_either, if◌then◌else◌, get_or, set, All, drop,
}
use g_sierra.Common.Int.{pos, negsuc}
use g_sierra.Cmdline.{
  ArgsStruct, ReadResult, stored, bad_value, bad_type, bool_value, cmd_read_option_value,
}
use g_sierra.Cmdline.Options.{all_options}
use g_sierra.Cmdline.Parse.{
  is_type_b, put_read, store_at, call_if_found, store_value, cmd_handle_this_matched_arg, CmdLine,
  accepted, help, rejected, native_handle_cmd_line,
}
use g_sierra.Cmdline.Parse.Keeps.{Keeps, native_handle_cmd_line-keeps}
use g_sierra.Sim.Top.{hwm_init}
use g_sierra.Sim.Machine.{initialised, run_calls, Reach, started}
use g_sierra.Sim.Ratio.{Floats, Clocked}
use g_sierra.Sim.Start.{
  Readers, libc, State, load, callbacks, store_back, call_when_found, at_start, then_init,
  posix_init,
}
use g_sierra.Sim.Start.Callbacks.{
  IsUsable, get_or-All, IsReady, Readies, is_ready, callbacks-Readies,
}

module _ (f : Floats) (slowdown : Bool)
    (above : (d : f.Double)
      → f.less (f.of_int (negsuc 0)) d ≡ true
      → f.less_or_equal (f.add d (f.of_int (pos 1))) (f.of_int (pos 0)) ≡ false)
    (readers : Readers f.Double) where
  abbrev Holds : State f readers → Type 0
  Holds s = IsReady f slowdown s.program

  call-Holds :
      (callback : ℕ) (argv : List ℕ) (n : ℕ) (s s' : State f readers)
      → Holds s
      → call_when_found f readers callback argv n s ≡ some s'
      → Holds s'
  unfolding call_when_found
  call-Holds callback argv n s s' r e =
      let g = get_or (callbacks f readers) callback (λ c. some c) in
      let (c, found, stored_) = >>=-eq-some (g (load f readers s)) _ s' e in
      let same : s' ≡ store_back f readers s c = cc in
      rw same (
        get_or-All (Readies f slowdown) (callbacks f readers) callback (λ c. some c)
          (callbacks-Readies f slowdown above readers) (λ c c' r e. is_ready f slowdown c c' r e)
          (load f readers s) c r found)

  put-Holds :
      (dest : ℕ) (v : ReadResult f.Double) (s s' : State f readers)
      → Holds s
      → put_read (libc f readers) (call_when_found f readers) dest v s ≡ some s'
      → Holds s'
  put-Holds dest (stored v) s s' r e =
      let same : s' ≡ record s { store = set s.store dest v } = cc in rw same r
  put-Holds dest bad_value s s' r e = cc
  put-Holds dest bad_type s s' r e = cc

  store_at-Holds :
      (argv : List ℕ) (n : ℕ) (a : ArgsStruct) (dest : Option ℕ) (s s' : State f readers)
      → Holds s
      → store_at (libc f readers) (call_when_found f readers) argv n a dest s ≡ some s'
      → Holds s'
  store_at-Holds argv n a none s s' r e = let same : s' ≡ s = cc in rw same r
  store_at-Holds argv n a (some dest) s s' r e =
      let put = put_read (libc f readers) (call_when_found f readers) dest in
      if_either (λ (o : Option (State f readers)). o ≡ some s' → Holds s') a.is_switch _ _
        (put-Holds dest (if is_type_b a.type then stored (bool_value true) else bad_type) s s' r)
        (put-Holds dest (cmd_read_option_value (libc f readers) (drop n argv) a.type) s s' r) e

  called-Holds :
      (callback : Option ℕ) (argv : List ℕ) (n : ℕ) (s s' : State f readers)
      → Holds s
      → call_if_found (libc f readers) (call_when_found f readers) callback argv n s ≡ some s'
      → Holds s'
  called-Holds none argv n s s' r e = let same : s' ≡ s = cc in rw same r
  called-Holds (some callback) argv n s s' r e = call-Holds callback argv n s s' r e

  option-Keeps : (a : ArgsStruct) → Keeps (libc f readers) (call_when_found f readers) Holds a
  unfolding cmd_handle_this_matched_arg store_value
  option-Keeps a argv n s s' r e =
      let l = libc f readers in
      let call = call_when_found f readers in
      let (s₁, stores, calls) = >>=-eq-some (store_at l call argv n a a.dest s) _ s' e in
      called-Holds a.call_when_found argv n s₁ s' (store_at-Holds argv n a a.dest s s₁ r stores)
        calls

  table-Keeps :
      (table : List ArgsStruct)
      → All (Keeps (libc f readers) (call_when_found f readers) Holds) table
  table-Keeps [] = tt
  table-Keeps (a ∷ others) = (option-Keeps a, table-Keeps others)

  init_ready :
      (host rtc : ℕ) (line : CmdLine (libc f readers) (call_when_found f readers)) (c : Clocked f)
      → ((rest : List (List ℕ)) (s : State f readers) → line ≡ accepted rest s → Holds s)
      → then_init f readers host rtc line ≡ some c
      → IsUsable f c × Reach c.hw
  unfolding initialised run_calls
  init_ready host rtc (accepted rest s) c holds e =
      let (usable, (xs, set_up)) = holds rest s refl in
      let same : c ≡ record s.program { hw = hwm_init host rtc s.program.hw } = cc in
      rw same (usable, rw set_up (started slowdown xs host rtc []))
  init_ready host rtc (help text) c holds e = cc
  init_ready host rtc (rejected argv) c holds e = cc

  -- Whatever the command line, when `posix_init` returns the ratio of the clocks is neither zero nor
  -- below and the models are in a state that the board reaches; if adding 1 to a number above -1 gives
  -- one above 0, and 1 is above 0.
  pub posix_init-Reach :
      (args : List (List ℕ)) (host_us realhosttime : ℕ) (c : Clocked f)
      → f.less_or_equal (f.of_int (pos 1)) (f.of_int (pos 0)) ≡ false
      → posix_init f readers slowdown args host_us realhosttime ≡ some c
      → IsUsable f c × Reach c.hw
  unfolding posix_init
  posix_init-Reach args host rtc c one_above e =
      let l = libc f readers in
      let call = call_when_found f readers in
      let start = at_start f readers slowdown in
      let (line, reads, inits) =
        >>=-eq-some (native_handle_cmd_line l call all_options args start)
          (then_init f readers host rtc) c e in
      init_ready host rtc line c
        (λ rest s is_line.
          native_handle_cmd_line-keeps l call Holds all_options args rest start s
            (table-Keeps all_options) (λ defaults set_defaults. (one_above, ([], refl)))
            (reads ∙ ap some is_line))
        inits
