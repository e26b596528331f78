-- ===== src/Sim/Process.antt =====
-- tracing.c and `posix_exit` of main.c: what the board prints, and how the process ends.
pub mod Code
use g_sierra.Common.{ℕ, Bool, true, false, List, [], ◌∷◌, ◌++◌, if◌then◌else◌}
use g_sierra.Common.Int.{ℤ, pos, negsuc, ltb_ℤ}
use g_sierra.Cmdline.Table.{Table, native_cleanup_cmd_line}

-- The characters on `stdout` and `stderr`, the static variable `max_exit_code`, and the table of the
-- command line, which is given back at the end.
pub record Process : Type 0 where
  pub out : List ℕ
  pub err : List ℕ
  pub max_exit_code : ℤ
  pub options : Table

-- The process ends with a code; or it goes on, because a thread of the software called and
-- `posix_soc_clean_up` leaves the end to the thread of the hardware.
pub data Exit : Type 0 where
  ended : ℤ → Process → Exit
  left_to_hw : Process → Exit

-- `MAX`
abbrev pub max_ℤ : ℤ → ℤ → ℤ
max_ℤ a b = if ltb_ℤ b a then a else b

-- Whether `posix_soc_clean_up` returns is an argument. `hwm_cleanup` does nothing.
unfoldable pub posix_exit : Bool → ℤ → Process → Exit
unfolding native_cleanup_cmd_line
posix_exit clean_up_returns exit_code p =
    let p' = record p { max_exit_code = max_ℤ exit_code p.max_exit_code } in
    if clean_up_returns
    then ended p'.max_exit_code (record p' { options = native_cleanup_cmd_line p'.options })
    else left_to_hw p'

-- `vfprintf` gives the text that it prints.
module _ {Args : Type 0} (vfprintf : List ℕ → Args → List ℕ) where
  unfoldable pub posix_vprint_error_and_exit : Bool → List ℕ → Args → Process → Exit
  unfolding posix_exit
  posix_vprint_error_and_exit clean_up_returns format vargs p =
      posix_exit clean_up_returns (pos 1) (record p { err = p.err ++ vfprintf format vargs })

  unfoldable pub posix_vprint_warning : List ℕ → Args → Process → Process
  posix_vprint_warning format vargs p = record p { err = p.err ++ vfprintf format vargs }

  unfoldable pub posix_vprint_trace : List ℕ → Args → Process → Process
  posix_vprint_trace format vargs p = record p { out = p.out ++ vfprintf format vargs }

  unfoldable pub posix_print_error_and_exit : Bool → List ℕ → Args → Process → Exit
  unfolding posix_vprint_error_and_exit
  posix_print_error_and_exit clean_up_returns format variable_args p =
      posix_vprint_error_and_exit clean_up_returns format variable_args p

  unfoldable pub posix_print_warning : List ℕ → Args → Process → Process
  posix_print_warning format variable_args p = record p {
    err = p.err ++ vfprintf format variable_args;
  }

  unfoldable pub posix_print_trace : List ℕ → Args → Process → Process
  posix_print_trace format variable_args p = record p {
    out = p.out ++ vfprintf format variable_args;
  }
