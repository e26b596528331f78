-- ===== src/Cmdline/Options.antt =====
-- The options that the board registers, those of cmdline.c, tracing.c and timer_model.c, and the
-- colour of the traces. Callbacks are numbered; a destination is an index of the store.
use g_sierra.Common.{
  ℕ, true, false, Option, none, some, List, [], ◌∷◌, ◌++◌, if◌then◌else◌, get_or, set, codes,
}
use g_sierra.Common.Int.{ℤ, pos, negsuc, eqb_ℤ}
use g_sierra.Cmdline.{ArgsStruct, type_b, type_d, type_l}
use g_sierra.Cmdline.Table.{Table, native_add_command_line_opts}

abbrev pub testargs_options : List ArgsStruct
testargs_options =
    record {
      manual = true;
      is_mandatory = false;
      is_switch = false;
      option = codes "testargs";
      name = codes "arg";
      type = type_l;
      dest = none;
      call_when_found = none;
      descript =
          codes
            "Any argument that follows will be ignored by the top level, and made available for possible tests";
    }
    ∷ []

unfoldable pub native_add_testargs_option : Table → Option Table
unfolding native_add_command_line_opts
native_add_testargs_option t = native_add_command_line_opts testargs_options t

abbrev switch : List ℕ → List ℕ → ℕ → List ℕ → ArgsStruct
switch option name callback descript = record {
  manual = false;
  is_mandatory = false;
  is_switch = true;
  option = option;
  name = name;
  type = type_b;
  dest = none;
  call_when_found = some callback;
  descript = descript;
}

abbrev double_option : List ℕ → List ℕ → ℕ → ℕ → List ℕ → ArgsStruct
double_option option name dest callback descript = record {
  manual = false;
  is_mandatory = false;
  is_switch = false;
  option = option;
  name = name;
  type = type_d;
  dest = some dest;
  call_when_found = some callback;
  descript = descript;
}

-- The callbacks are `trace_enable_color`, `trace_disable_color` and `trace_force_color`.
abbrev pub trace_options : List ArgsStruct
trace_options =
    switch (codes "color") (codes "color") 0
      (codes "(default) Enable color in traces if printing to console")
    ∷ switch (codes "no-color") (codes "no-color") 1
        (codes "Disable color in traces even if printing to console")
    ∷ switch (codes "force-color") (codes "force-color") 2
        (codes "Enable color in traces even if printing to files/pipes")
    ∷ []

unfoldable pub native_add_tracing_options : Table → Option Table
unfolding native_add_command_line_opts
native_add_tracing_options t = native_add_command_line_opts trace_options t

-- The destinations are `args.rt_drift`, `rt_ratio`, `rtc_offset` and `stop_at`; the callbacks are the
-- `cmd_…_found` of timer_model.c.
abbrev pub timer_options : List ArgsStruct
timer_options =
    switch (codes "rt") (codes "") 3 (
      codes
        "Slow down the execution to the host real time, or a ratio of it (see --rt-ratio below)")
    ∷ switch (codes "no-rt") (codes "") 4 (
        codes
          "Do NOT slow down the execution to real time, but advance Zephyr's time as fast as possible and decoupled from the host time")
    ∷ double_option (codes "rt-drift") (codes "dratio") 0 5 (
        codes
          "Drift of the simulated clock relative to the host real time. Normally this would be set to a value of a few ppm (e.g. 50e-6) This option has no effect in non real time mode")
    ∷ double_option (codes "rt-ratio") (codes "ratio") 1 6 (
        codes
          "Relative speed of the simulated time vs real time. For ex. set to 2 to have simulated time pass at double the speed of real time. Note that both rt-drift & rt-ratio adjust the same clock speed, and therefore it does not make sense to use them simultaneously. This option has no effect in non real time mode")
    ∷ double_option (codes "rtc-offset") (codes "time_offset") 2 7
        (codes "At boot offset the RTC clock by this amount of seconds")
    ∷ switch (codes "rtc-reset") (codes "") 8 (
        codes
          "Start the simulated real time clock at 0. Otherwise it starts matching the value provided by the host real time clock")
    ∷ double_option (codes "stop_at") (codes "time") 3 9
        (codes "In simulated seconds, when to stop automatically")
    ∷ []

unfoldable pub native_add_time_options : Table → Option Table
unfolding native_add_command_line_opts
native_add_time_options t = native_add_command_line_opts timer_options t

-- The order in which they are registered: the timer's before the start, then the other two.
abbrev pub all_options : List ArgsStruct
all_options = timer_options ++ trace_options ++ testargs_options

-- `is_a_tty`, for stdout and stderr; -1 is not known yet.
abbrev pub Tty : Type 0
Tty = List ℤ

unfoldable pub trace_disable_color : Tty → Tty
trace_disable_color t = set (set t 0 (pos 0)) 1 (pos 0)

unfoldable pub trace_enable_color : Tty → Tty
trace_enable_color t = set (set t 0 (negsuc 0)) 1 (negsuc 0)

unfoldable pub trace_force_color : Tty → Tty
trace_force_color t = set (set t 0 (pos 1)) 1 (pos 1)

unfoldable pub posix_trace_over_tty : ℕ → Tty → ℤ
posix_trace_over_tty file_number t = get_or t file_number (pos 0)

abbrev decide_one : ℕ → ℤ → Tty → Tty
decide_one file answer t = if eqb_ℤ (get_or t file (pos 0)) (negsuc 0) then set t file answer else t

-- The answers of `isatty` for both.
unfoldable pub decide_about_color : ℤ → ℤ → Tty → Tty
decide_about_color stdout_tty stderr_tty t = decide_one 1 stderr_tty (decide_one 0 stdout_tty t)
