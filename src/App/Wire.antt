-- ===== src/App/Wire.antt =====
-- The bytes that reach the modem.
use g_sierra.Common.{
  ℕ, suc, ◌≡◌, refl, sym, ◌∙◌, ap, Bool, List, [], ◌∷◌, ◌++◌, map, append_assoc, append-nil, ◌==◌,
  get_or, Bool-cases, inl, inr, arith,
}
use g_sierra.Common.Int.{ℤ}
use g_sierra.Effects.{Effect, Timer, World, done, init_console, init_load_switch, poll_out, sleep}
use g_sierra.Gsm.{gsm_init_commands, gsm_driver_init}
use g_sierra.Gsm.Commands.{command_trace, commands_trace, send_at_command_lem, gsm_modem_init_lem}
use g_sierra.App.{Board, forward_lines, main_devices, main}
use g_sierra.Boot.{Globals, Platform}
use g_sierra.Boot.Identity.{IsNamed, boot-IsNamed}

-- The bytes of a trace that go out of the UART.
pub wire : List Effect → List ℕ
wire [] = []
wire (poll_out c ∷ es) = c ∷ wire es
wire (_ ∷ es) = wire es

-- Strings as they are sent, each with a line feed behind it.
pub with_line_feeds : List (List ℕ) → List ℕ
with_line_feeds [] = []
with_line_feeds (s ∷ ss) = s ++ 10 ∷ with_line_feeds ss

wire-append : (xs ys : List Effect) → wire (xs ++ ys) ≡ wire xs ++ wire ys
unfolding wire
wire-append [] ys = refl
wire-append (poll_out c ∷ xs) ys = ap (◌∷◌ c) (wire-append xs ys)
wire-append (_ ∷ xs) ys = wire-append xs ys

wire_poll_out : (s : List ℕ) → wire (map poll_out s) ≡ s
unfolding wire
wire_poll_out [] = refl
wire_poll_out (c ∷ cs) = ap (◌∷◌ c) (wire_poll_out cs)

wire-command_trace :
    (s : List ℕ) (rest : List Effect) → wire (command_trace s ++ rest) ≡ s ++ 10 ∷ wire rest
unfolding wire
wire-command_trace s rest = elim (Bool-cases (get_or s 0 0 == b'+')) [
  | inl plus ↦ rw plus (simp (append_assoc, wire-append, wire_poll_out))
  | inr plain ↦ rw plain (simp (append_assoc, wire-append, wire_poll_out))
]

wire-commands_trace :
    (ss : List (List ℕ)) (rest : List Effect)
    → wire (commands_trace ss ++ rest) ≡ with_line_feeds ss ++ wire rest
unfolding wire with_line_feeds
wire-commands_trace [] rest = refl
wire-commands_trace (s ∷ ss) rest =
    ap wire (append_assoc (command_trace s) (sleep 2000 ∷ commands_trace ss) rest)
    ∙ wire-command_trace s (sleep 2000 ∷ commands_trace ss ++ rest)
    ∙ ap (λ t. s ++ 10 ∷ t) (wire-commands_trace ss rest)
    ∙ sym (append_assoc s (10 ∷ with_line_feeds ss) (wire rest))

wire-gsm_driver_init :
    (enotsup enosys : ℤ) (ready : Bool) (ret : ℤ)
    → wire (gsm_driver_init enotsup enosys ready ret).1 ≡ []
unfolding gsm_driver_init wire
wire-gsm_driver_init enotsup enosys ready ret = ground arith

-- The trace of the console's lines.
lines_trace : List (List ℕ) → List Effect
lines_trace [] = []
lines_trace (s ∷ ss) = command_trace s ++ lines_trace ss

wire-lines_trace : (ss : List (List ℕ)) → wire (lines_trace ss) ≡ with_line_feeds ss
unfolding lines_trace with_line_feeds wire
wire-lines_trace [] = refl
wire-lines_trace (s ∷ ss) =
    wire-command_trace s (lines_trace ss) ∙ ap (λ t. s ++ 10 ∷ t) (wire-lines_trace ss)

wire-commands_trace_all : (ss : List (List ℕ)) → wire (commands_trace ss) ≡ with_line_feeds ss
unfolding wire
wire-commands_trace_all ss = simp append-nil at (wire-commands_trace ss [])

wire_of_run :
    (before start : List Effect) (commands lines : List (List ℕ))
    → wire start ≡ []
    → wire (
        ((((before ++ init_console ∷ []) ++ sleep 5000 ∷ []) ++ start) ++ sleep 10000 ∷ [])
        ++ (commands_trace commands ++ (sleep 5000 ∷ lines_trace lines)))
      ≡ wire before ++ (with_line_feeds commands ++ with_line_feeds lines)
unfolding wire
wire_of_run before start commands lines e =
    simp (wire-append, append_assoc, wire-commands_trace_all, wire-lines_trace, e)

module _ (k : Timer) where
  open k use {State}

  forward_lines_lem :
      (fuel : ℕ) (ss : List (List ℕ)) (w : World State)
      → (t : State) × (forward_lines k (suc (suc fuel)) ss w
          ≡ done (record { timer = t; trace = w.trace ++ lines_trace ss }))
  unfolding forward_lines lines_trace
  forward_lines_lem fuel [] w = (w.timer, rw append-nil)
  forward_lines_lem fuel (s ∷ ss) w =
      let (t, p) = send_at_command_lem k fuel s w in
      let w' : World State = record { timer = t; trace = w.trace ++ command_trace s } in
      let (u, q) = forward_lines_lem fuel ss w' in (u, rw (p, q) (simp append_assoc))

  -- On a processor with pointers of four bytes `main` never stops before the console does, whatever
  -- the start of the driver comes to: after the lines of the console the modem has been sent the
  -- eight commands of the start and then exactly these lines, in order, each with a line feed.
  pub wire-main_devices :
      (b : Board) (fuel : ℕ) (lines : List (List ℕ)) (w : World State)
      → b.pointer_size ≡ 4
      → (w' : World State) × (main_devices k b (suc (suc fuel)) lines w ≡ done w')
        × (wire w'.trace
            ≡ wire w.trace ++ (with_line_feeds gsm_init_commands ++ with_line_feeds lines))
  unfolding main_devices
  wire-main_devices b fuel lines w four =
      let start : List Effect =
        (gsm_driver_init b.enotsup b.enosys b.uart_ready b.callback_result).1 in
      let before : World State = record {
        timer = w.timer;
        trace = (((w.trace ++ init_console ∷ []) ++ sleep 5000 ∷ []) ++ start) ++ sleep 10000 ∷ [];
      } in
      let (t, p) = gsm_modem_init_lem k fuel before in
      let ready : World State = record {
        timer = t;
        trace = (before.trace ++ commands_trace gsm_init_commands) ++ sleep 5000 ∷ [];
      } in
      let (u, q) = forward_lines_lem fuel lines ready in
      (
        record {
          timer = u;
          trace =
              before.trace
              ++ (commands_trace gsm_init_commands ++ (sleep 5000 ∷ lines_trace lines));
        },
        rw (four, p, q) (simp append_assoc),
        wire_of_run w.trace start gsm_init_commands lines
            (wire-gsm_driver_init b.enotsup b.enosys b.uart_ready b.callback_result),
      )

  -- With pointers of four bytes, whatever the platform answers, `main` leaves the node named; and by
  -- the time it has read the given lines of the console, with fuel for two calls of the timer in each
  -- wait, it has added to the wire the eight commands of the start and then exactly these lines, in
  -- their order, each with a line feed.
  pub wire-main :
      (p : Platform) (b : Board) (fuel : ℕ) (lines : List (List ℕ)) (g : Globals) (w : World State)
      → b.pointer_size ≡ 4
      → let (g', run) = main k p b (suc (suc fuel)) lines g w in
        IsNamed g'
        × ((w' : World State) × (run ≡ done w')
            × (wire w'.trace
                ≡ wire w.trace ++ (with_line_feeds gsm_init_commands ++ with_line_feeds lines)))
  unfolding main
  wire-main p b fuel lines g w four =
      let switched : World State = record w { trace = w.trace ++ init_load_switch ∷ [] } in
      let (w', run, bytes) = wire-main_devices b fuel lines switched four in
      (
        boot-IsNamed p g,
        (
          w',
          run,
          bytes
              ∙ ap (λ t. t ++ (with_line_feeds gsm_init_commands ++ with_line_feeds lines))
                  switch_silent,
        ),
      )
    where
      switch_silent : wire (w.trace ++ init_load_switch ∷ []) ≡ wire w.trace
      switch_silent = unfold wire in rw wire-append (append-nil _)
