-- ===== src/Gsm.antt =====
-- samples/mesh/src/gsm_driver.c and inc/gsm_driver.h: the start of the modem's driver and the
-- commands that it sends.
pub mod Commands
use g_sierra.Common.{
  codes, ℕ, zero, suc, ◌+◌, ◌*◌, ◌/◌, Bool, true, false, not, Option, none, some, List, [], ◌∷◌,
  ◌++◌, map, ltb, ◌==◌, if◌then◌else◌, length, get_elem?, get_or,
}
use g_sierra.Common.Int.{ℤ, eqb_ℤ, is_negative}
use g_sierra.Effects.{
  Report, Effect, Timer, World, Run, Act, continue, ◌>>◌, emit, configure_power, set_power,
  set_callback, enable_rx, report, poll_out, start_timer, sync_timer, sleep, device_not_ready,
  not_supported, not_implemented, irq_enabled, callback_error, done, out_of_bounds, out_of_fuel,
}

-- The return value and the effects. `ready` is the answer of `device_is_ready`, `ret` that of
-- `uart_irq_callback_user_data_set`; the other two are `-ENOTSUP` and `-ENOSYS`.
unfoldable pub gsm_driver_init : ℤ → ℤ → Bool → ℤ → Bool × List Effect
gsm_driver_init enotsup enosys ready ret =
    if not ready
    then (false, power ++ report device_not_ready ∷ [])
    else if is_negative ret
    then (false, power ++ set_callback ∷ report reason ∷ [])
    else (false, power ++ set_callback ∷ report irq_enabled ∷ enable_rx ∷ [])
  where
    power : List Effect
    power = configure_power ∷ set_power 1 ∷ []

    reason : Report
    reason =
        if eqb_ℤ ret enotsup
        then not_supported
        else if eqb_ℤ ret enosys
        then not_implemented
        else callback_error ret

abbrev pub gsm_init_commands : List (List ℕ)
gsm_init_commands =
    codes "At+creg=1"
    ∷ codes "At+cgreg=1"
    ∷ codes "At+cfun=1,1"
    ∷ codes "ATI"
    ∷ codes "At+kcnxcfg=1,\"GPRS\",\"internet.swir\""
    ∷ codes "At+ktcpcfg=1,0,\"217.104.100.191\",5100"
    ∷ codes "At+ktcpcnx=1"
    ∷ codes "At+ktcpstart=1"
    ∷ []

module _ (k : Timer) where
  open k use {State, start, status_sync}

  abbrev begin_timer : ℕ → Act State
  begin_timer ms w =
      done (record { timer = start ms w.timer; trace = w.trace ++ start_timer ms ∷ [] })

  -- `while(k_timer_status_sync(&my_sync_timer));` on fuel
  unfoldable pub wait_timer : ℕ → Act State
  wait_timer zero w = out_of_fuel
  wait_timer (suc fuel) w =
      let (status, timer') = status_sync w.timer in
      let w' : World State = record { timer = timer'; trace = w.trace ++ sync_timer ∷ [] } in
      let again = wait_timer fuel w' in if status == 0 then done w' else again

  -- The `for` loop over the characters.
  unfoldable pub poll_all : List ℕ → Act State
  poll_all [] w = done w
  poll_all (c ∷ cs) w = poll_all cs (record w { trace = w.trace ++ poll_out c ∷ [] })

  -- `buf` is the string's characters; the first character of an empty string is the zero.
  unfoldable pub send_at_command : ℕ → List ℕ → Act State
  send_at_command fuel buf =
      (if get_or buf 0 0 == b'+'
        then begin_timer 1000
          >> wait_timer fuel
          >> poll_all buf
          >> begin_timer 1000
          >> wait_timer fuel
        else poll_all buf)
      >> emit (poll_out 10)
      >> emit (sleep 2000)

  -- One round of the `for` loop of `gsm_modem_init`, which reads the array at index `i`.
  unfoldable pub send_one : ℕ → ℕ → Act State
  send_one fuel i w = elim (get_elem? gsm_init_commands i) [
    | none ↦ out_of_bounds
    | some command ↦ (send_at_command fuel command >> emit (sleep 2000)) w
  ]

  -- The loop, with `n` rounds left at index `i`.
  unfoldable pub send_commands : ℕ → ℕ → ℕ → Act State
  send_commands fuel zero i w = done w
  send_commands fuel (suc n) i w = continue (send_one fuel i w) (send_commands fuel n (i + 1))

  -- The array holds pointers of `pointer_size` bytes, and its size is divided by 4.
  unfoldable pub gsm_modem_init : ℕ → ℕ → Act State
  gsm_modem_init pointer_size fuel =
      send_commands fuel (length gsm_init_commands * pointer_size / 4) 0
