-- ===== src/Tests/Process.antt =====
-- An error and a warning, and then the end of the process with code 0.
use g_sierra.Common.{ℕ, ◌≡◌, refl, true, List, [], ◌∷◌, All, codes}
use g_sierra.Common.Int.{ℤ, pos}
use g_sierra.Sim.Process.{Process, ended, posix_exit}
use g_sierra.Sim.Process.Code.{
  AtLeast, IsOneOf, Step, warning, error, codes_of, err_of, out_of, run_steps, posix_exit-run_steps,
}

-- `vfprintf` of formats without arguments.
abbrev plain : List ℕ → ℕ → List ℕ
plain format vargs = format

abbrev steps : List (Step ℕ)
steps = error (codes "no routine") 0 ∷ warning (codes "late") 0 ∷ []

abbrev fresh : Process
fresh = record {
  out = [];
  err = [];
  max_exit_code = pos 0;
  options = record { args_struct = []; used_args = 0; args_aval = 0 };
}

posix_exit-run_steps_example :
    (v : ℤ) × (q : Process) × (posix_exit true (pos 0) (run_steps plain steps fresh) ≡ ended v q)
    × All (AtLeast v) (pos 0 ∷ pos 0 ∷ codes_of steps)
    × IsOneOf v (pos 0 ∷ codes_of steps)
    × (q.err ≡ err_of plain steps)
    × (q.out ≡ out_of plain steps)
posix_exit-run_steps_example = posix_exit-run_steps plain steps (pos 0) fresh refl refl refl
