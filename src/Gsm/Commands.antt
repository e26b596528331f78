-- ===== src/Gsm/Commands.antt =====
-- What the driver puts on the wire, that its waits end, and what its start returns.
use g_sierra.Common.{
  ℕ, suc, ◌+◌, ◌≡◌, refl, ◌∙◌, Bool, true, false, not, ◌&&◌, some, List, [], ◌∷◌, ◌++◌, map,
  append_assoc, append-nil, ◌==◌, if◌then◌else◌, Bool-cases, inl, inr, get_elem?, get_or, arith,
}
use g_sierra.Common.Int.{ℤ, is_negative}
use g_sierra.Effects.{
  Effect, Timer, World, done, out_of_bounds, ◌>>◌, poll_out, start_timer, sync_timer, sleep,
  enable_rx,
}
use g_sierra.Gsm.{
  gsm_driver_init, gsm_init_commands, begin_timer, wait_timer, poll_all, send_at_command, send_one,
  send_commands, gsm_modem_init,
}

-- The header says that `gsm_driver_init` returns true if it succeeds. It returns false on every
-- path, also on the one where the interrupt was enabled.
pub gsm_driver_init-false :
    (enotsup enosys : ℤ) (ready : Bool) (ret : ℤ)
    → (gsm_driver_init enotsup enosys ready ret).0 ≡ false
unfolding gsm_driver_init
gsm_driver_init-false enotsup enosys ready ret = ground arith

-- Whether a trace enables the receive interrupt.
pub enables : List Effect → Bool
enables [] = false
enables (enable_rx ∷ es) = true
enables (_ ∷ es) = enables es

-- The receive interrupt is enabled exactly when the device is ready and took the callback.
pub enables-gsm_driver_init :
    (enotsup enosys : ℤ) (ready : Bool) (ret : ℤ)
    → enables (gsm_driver_init enotsup enosys ready ret).1 ≡ (ready && not (is_negative ret))
unfolding gsm_driver_init enables
enables-gsm_driver_init enotsup enosys ready ret = ground arith

-- A guard time: a second on the timer, and the two calls that see it over.
abbrev guard_time : List Effect
guard_time = start_timer 1000 ∷ sync_timer ∷ sync_timer ∷ []

-- What `send_at_command` does for a string: an escape, which begins with `+`, stands between two
-- guard times; a line feed and a pause of two seconds follow every string.
abbrev pub command_trace : List ℕ → List Effect
command_trace buf =
    (if get_or buf 0 0 == b'+'
      then guard_time ++ (map poll_out buf ++ guard_time)
      else map poll_out buf)
    ++ (poll_out 10 ∷ sleep 2000 ∷ [])

module _ (k : Timer) where
  open k use {State, start, status_sync, sync_expired, sync_again}

  poll_all_lem :
      (cs : List ℕ) (w : World State)
      → poll_all k cs w ≡ done (record w { trace = w.trace ++ map poll_out cs })
  unfolding poll_all
  poll_all_lem [] w = rw append-nil
  poll_all_lem (c ∷ cs) w =
      rw (poll_all_lem cs (record w { trace = w.trace ++ poll_out c ∷ [] }), append_assoc)

  guard_time_lem :
      (fuel : ℕ) (w : World State)
      → (t : State) × ((begin_timer k 1000 >> wait_timer k (suc (suc fuel))) w
          ≡ done (record { timer = t; trace = w.trace ++ guard_time }))
  unfolding wait_timer
  guard_time_lem fuel w = (
    (status_sync (status_sync (start 1000 w.timer)).1).1,
    rw (sync_expired 1000 w.timer, sync_again 1000 w.timer, append_assoc, append_assoc) refl,
  )

  -- With fuel for two calls of the timer each wait ends, and a string leaves exactly its trace.
  pub send_at_command_lem :
      (fuel : ℕ) (buf : List ℕ) (w : World State)
      → (t : State) × (send_at_command k (suc (suc fuel)) buf w
          ≡ done (record { timer = t; trace = w.trace ++ command_trace buf }))
  unfolding send_at_command
  send_at_command_lem fuel buf w = elim (Bool-cases (get_or buf 0 0 == b'+')) [
    | inl plus ↦ escaped plus
    | inr plain ↦ (w.timer, rw (plain, poll_all_lem buf w) (simp append_assoc))
  ]
    where
      first :
          (t : State) × ((begin_timer k 1000 >> wait_timer k (suc (suc fuel))) w
            ≡ done (record { timer = t; trace = w.trace ++ guard_time }))
      first = guard_time_lem fuel w

      middle : World State
      middle = record { timer = first.0; trace = (w.trace ++ guard_time) ++ map poll_out buf }

      second :
          (t : State) × ((begin_timer k 1000 >> wait_timer k (suc (suc fuel))) middle
            ≡ done (record { timer = t; trace = middle.trace ++ guard_time }))
      second = guard_time_lem fuel middle

      escaped :
          (get_or buf 0 0 == b'+') ≡ true
          → (t : State) × (send_at_command k (suc (suc fuel)) buf w
              ≡ done (record { timer = t; trace = w.trace ++ command_trace buf }))
      escaped plus = (second.0, rw (plus, first.1, poll_all_lem, second.1) (simp append_assoc))

-- The loop of `gsm_modem_init` seen as a walk along the commands that it reads.
abbrev rounds : List (List ℕ) → ℕ → ℕ
rounds [] m = m
rounds (c ∷ cs) m = suc (rounds cs m)

abbrev index_after : List (List ℕ) → ℕ → ℕ
index_after [] i = i
index_after (c ∷ cs) i = index_after cs (i + 1)

abbrev Reads : List (List ℕ) → ℕ → Type 0
Reads [] i = Unit
Reads (c ∷ cs) i = (get_elem? gsm_init_commands i ≡ some c) × Reads cs (i + 1)

abbrev pub commands_trace : List (List ℕ) → List Effect
commands_trace [] = []
commands_trace (c ∷ cs) = command_trace c ++ (sleep 2000 ∷ commands_trace cs)

Reads-all : Reads gsm_init_commands 0
Reads-all = (refl, (refl, (refl, (refl, (refl, (refl, (refl, (refl, tt))))))))

module _ (k : Timer) where
  open k use {State}

  send_one_lem :
      (fuel i : ℕ) (c : List ℕ) (w : World State)
      → get_elem? gsm_init_commands i ≡ some c
      → (t : State) × (send_one k (suc (suc fuel)) i w
          ≡ done (record { timer = t; trace = w.trace ++ (command_trace c ++ sleep 2000 ∷ []) }))
  unfolding send_one
  send_one_lem fuel i c w e =
      let (t, p) = send_at_command_lem k fuel c w in (t, rw (e, p) (simp append_assoc))

  send_commands_walk :
      (fuel : ℕ) (cs : List (List ℕ)) (m i : ℕ) (w : World State)
      → Reads cs i
      → (t : State) × (send_commands k (suc (suc fuel)) (rounds cs m) i w
          ≡ send_commands k
              (suc (suc fuel))
              m
              (index_after cs i)
              (record { timer = t; trace = w.trace ++ commands_trace cs }))
  unfolding send_commands
  send_commands_walk fuel [] m i w h = (w.timer, rw append-nil)
  send_commands_walk fuel (c ∷ cs) m i w h =
      let (t, p) = send_one_lem fuel i c w h.0 in
      let w' : World State = record {
        timer = t;
        trace = w.trace ++ (command_trace c ++ sleep 2000 ∷ []);
      } in
      let (u, q) = send_commands_walk fuel cs m (i + 1) w' h.1 in (u, rw (p, q) (simp append_assoc))

  -- With pointers of four bytes, as on the board's processor, `gsm_modem_init` ends, and it has sent
  -- each of the eight commands once, in order, with its pauses.
  pub gsm_modem_init_lem :
      (fuel : ℕ) (w : World State)
      → (t : State) × (gsm_modem_init k 4 (suc (suc fuel)) w
          ≡ done (record { timer = t; trace = w.trace ++ commands_trace gsm_init_commands }))
  unfolding gsm_modem_init
  gsm_modem_init_lem fuel w =
      let (t, p) = send_commands_walk fuel gsm_init_commands 0 0 w Reads-all in
      (t, p ∙ unfold send_commands in refl)

  -- With pointers of eight bytes the size divided by 4 is 16, and it reads past the array's end.
  pub gsm_modem_init_wide :
      (fuel : ℕ) (w : World State) → gsm_modem_init k 8 (suc (suc fuel)) w ≡ out_of_bounds
  unfolding gsm_modem_init
  gsm_modem_init_wide fuel w =
      let (t, p) = send_commands_walk fuel gsm_init_commands 8 0 w Reads-all in
      p ∙ unfold send_commands send_one in refl
