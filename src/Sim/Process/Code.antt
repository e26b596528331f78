-- ===== src/Sim/Process/Code.antt =====
-- The code that the process ends with, and what it has printed.
use g_sierra.Common.{
  ℕ, ◌≡◌, refl, ◌∙◌, ap, sym, ◌⊎◌, inl, inr, true, false, List, [], ◌∷◌, ◌++◌, append_assoc,
  append-nil, if_cases, if_either, All, arith,
}
use g_sierra.Common.Int.{ℤ, pos, ltb_ℤ}
use g_sierra.Sim.Process.{
  Process, Exit, ended, left_to_hw, max_ℤ, posix_exit, posix_print_error_and_exit,
  posix_vprint_error_and_exit, posix_print_warning, posix_print_trace,
}

-- `a` is not below `b`.
abbrev pub AtLeast : ℤ → ℤ → Type 0
AtLeast a b = ltb_ℤ a b ≡ false

AtLeast-refl : (a : ℤ) → AtLeast a a
AtLeast-refl a = ground arith

AtLeast-trans : (a b c : ℤ) → AtLeast a b → AtLeast b c → AtLeast a c
AtLeast-trans a b c h k = ground (arith, h, k)

max_left : (a b : ℤ) → AtLeast (max_ℤ a b) a
max_left a b = if_cases (λ m. AtLeast m a) (ltb_ℤ b a) a b (λ e. AtLeast-refl a) (λ e. e)

max_right : (a b : ℤ) → AtLeast (max_ℤ a b) b
max_right a b =
    if_cases (λ m. AtLeast m b) (ltb_ℤ b a) a b (λ e. ground (arith, e)) (λ e. AtLeast-refl b)

above_both : (v a b : ℤ) → AtLeast v (max_ℤ a b) → AtLeast v a × AtLeast v b
above_both v a b h = (
  AtLeast-trans v (max_ℤ a b) a h (max_left a b),
  AtLeast-trans v (max_ℤ a b) b h (max_right a b),
)

above_all : (v w : ℤ) (cs : List ℤ) → AtLeast v w → All (AtLeast w) cs → All (AtLeast v) cs
above_all v w [] h a = tt
above_all v w (c ∷ cs) h (first, rest) = (AtLeast-trans v w c h first, above_all v w cs h rest)

-- 0, or one of the values of a list.
abbrev pub IsOneOf : ℤ → List ℤ → Type 0
IsOneOf v [] = v ≡ pos 0
IsOneOf v (c ∷ cs) = (v ≡ c) ⊎ IsOneOf v cs

larger_one :
    (c m v : ℤ) (cs : List ℤ) → (v ≡ max_ℤ c m) ⊎ IsOneOf v cs → (v ≡ m) ⊎ ((v ≡ c) ⊎ IsOneOf v cs)
larger_one c m v cs (inr o) = inr (inr o)
larger_one c m v cs (inl e) =
    if_either (λ x. v ≡ x → (v ≡ m) ⊎ ((v ≡ c) ⊎ IsOneOf v cs)) (ltb_ℤ m c) c m (λ e. inr (inl e))
      (λ e. inl e) e

zero-IsOneOf : (v : ℤ) (cs : List ℤ) → v ≡ pos 0 → IsOneOf v cs
zero-IsOneOf v [] e = e
zero-IsOneOf v (c ∷ cs) e = inr (zero-IsOneOf v cs e)

-- What threads of the software do before the end: print, or ask for the end.
pub data Step (Args : Type 0) : Type 0 where
  warning : List ℕ → Args → Step Args
  trace : List ℕ → Args → Step Args
  error : List ℕ → Args → Step Args
  exit : ℤ → Step Args

-- The codes that they ask for: an error asks for 1.
abbrev pub codes_of : {Args : Type 0} → List (Step Args) → List ℤ
codes_of [] = []
codes_of (warning f a ∷ steps) = codes_of steps
codes_of (trace f a ∷ steps) = codes_of steps
codes_of (error f a ∷ steps) = pos 1 ∷ codes_of steps
codes_of (exit code ∷ steps) = code ∷ codes_of steps

module _ {Args : Type 0} (vfprintf : List ℕ → Args → List ℕ) where
  -- What they print on `stderr`, and on `stdout`.
  abbrev pub err_of : List (Step Args) → List ℕ
  err_of [] = []
  err_of (warning f a ∷ steps) = vfprintf f a ++ err_of steps
  err_of (trace f a ∷ steps) = err_of steps
  err_of (error f a ∷ steps) = vfprintf f a ++ err_of steps
  err_of (exit code ∷ steps) = err_of steps

  abbrev pub out_of : List (Step Args) → List ℕ
  out_of [] = []
  out_of (warning f a ∷ steps) = out_of steps
  out_of (trace f a ∷ steps) = vfprintf f a ++ out_of steps
  out_of (error f a ∷ steps) = out_of steps
  out_of (exit code ∷ steps) = out_of steps

  abbrev process_of : Exit → Process
  process_of (ended code p) = p
  process_of (left_to_hw p) = p

  -- The process after a step of a thread of the software, whose end is left to the hardware's thread.
  abbrev pub run_step : Step Args → Process → Process
  run_step (warning f a) p = posix_print_warning vfprintf f a p
  run_step (trace f a) p = posix_print_trace vfprintf f a p
  run_step (error f a) p = process_of (posix_print_error_and_exit vfprintf false f a p)
  run_step (exit code) p = process_of (posix_exit false code p)

  abbrev pub run_steps : List (Step Args) → Process → Process
  run_steps [] p = p
  run_steps (x ∷ xs) p = run_steps xs (run_step x p)

  -- What the steps have done to the process.
  record Ran (steps : List (Step Args)) (p q : Process) : Type 0 where
    keeps : AtLeast q.max_exit_code p.max_exit_code
    all : All (AtLeast q.max_exit_code) (codes_of steps)
    one_of : (q.max_exit_code ≡ p.max_exit_code) ⊎ IsOneOf q.max_exit_code (codes_of steps)
    err_after : q.err ≡ p.err ++ err_of steps
    out_after : q.out ≡ p.out ++ out_of steps

  run_steps-Ran : (steps : List (Step Args)) (p : Process) → Ran steps p (run_steps steps p)
  unfolding posix_print_warning posix_print_trace posix_print_error_and_exit
      posix_vprint_error_and_exit posix_exit
  run_steps-Ran [] p = record {
    keeps = AtLeast-refl p.max_exit_code;
    all = tt;
    one_of = inl refl;
    err_after = sym (append-nil p.err);
    out_after = sym (append-nil p.out);
  }
  run_steps-Ran (warning f a ∷ steps) p =
      let r = run_steps-Ran steps (run_step (warning f a) p) in
      record {
        keeps = r.keeps;
        all = r.all;
        one_of = r.one_of;
        err_after = r.err_after ∙ append_assoc p.err (vfprintf f a) (err_of steps);
        out_after = r.out_after;
      }
  run_steps-Ran (trace f a ∷ steps) p =
      let r = run_steps-Ran steps (run_step (trace f a) p) in
      record {
        keeps = r.keeps;
        all = r.all;
        one_of = r.one_of;
        err_after = r.err_after;
        out_after = r.out_after ∙ append_assoc p.out (vfprintf f a) (out_of steps);
      }
  run_steps-Ran (error f a ∷ steps) p =
      let r = run_steps-Ran steps (run_step (error f a) p) in
      let v = (run_steps steps (run_step (error f a) p)).max_exit_code in
      let (above_code, above_before) = above_both v (pos 1) p.max_exit_code r.keeps in
      record {
        keeps = above_before;
        all = (above_code, r.all);
        one_of = larger_one (pos 1) p.max_exit_code v (codes_of steps) r.one_of;
        err_after = r.err_after ∙ append_assoc p.err (vfprintf f a) (err_of steps);
        out_after = r.out_after;
      }
  run_steps-Ran (exit code ∷ steps) p =
      let r = run_steps-Ran steps (run_step (exit code) p) in
      let v = (run_steps steps (run_step (exit code) p)).max_exit_code in
      let (above_code, above_before) = above_both v (code) p.max_exit_code r.keeps in
      record {
        keeps = above_before;
        all = (above_code, r.all);
        one_of = larger_one code p.max_exit_code v (codes_of steps) r.one_of;
        err_after = r.err_after;
        out_after = r.out_after;
      }

  -- Whatever the threads of the software print and ask for, when the thread of the hardware then ends
  -- a process that starts with nothing printed and code 0, the code is the largest of 0, its own and
  -- all that were asked for, among them 1 for each error, and the two streams hold the texts in the
  -- order in which they were printed.
  pub posix_exit-run_steps :
      (steps : List (Step Args)) (code : ℤ) (p : Process)
      → p.max_exit_code ≡ pos 0
      → p.err ≡ []
      → p.out ≡ []
      → (v : ℤ) × (q : Process) × (posix_exit true code (run_steps steps p) ≡ ended v q)
        × All (AtLeast v) (pos 0 ∷ code ∷ codes_of steps)
        × IsOneOf v (code ∷ codes_of steps)
        × (q.err ≡ err_of steps)
        × (q.out ≡ out_of steps)
  unfolding posix_exit
  posix_exit-run_steps steps code p zero_ no_err no_out =
      let r = run_steps-Ran steps p in
      let before = (run_steps steps p).max_exit_code in
      let v = max_ℤ code before in
      let (above_code, above_before) = above_both v code before (AtLeast-refl v) in
      (
        v,
        process_of (posix_exit true code (run_steps steps p)),
        refl,
        (
          ap (ltb_ℤ v) (sym zero_) ∙ AtLeast-trans v before p.max_exit_code above_before r.keeps,
          (above_code, above_all v before (codes_of steps) above_before r.all),
        ),
        if_either (λ x. IsOneOf x (code ∷ codes_of steps)) (ltb_ℤ before code) code before
            (inl refl)
            (inr (elim r.one_of [
              | inl same ↦ zero-IsOneOf before (codes_of steps) (same ∙ zero_)
              | inr o ↦ o
            ])),
        r.err_after ∙ ap (λ t. t ++ err_of steps) no_err,
        r.out_after ∙ ap (λ t. t ++ out_of steps) no_out,
      )
