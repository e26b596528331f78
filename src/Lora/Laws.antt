-- ===== src/Lora/Laws.antt =====
-- What the radio's driver keeps, and what its functions return and deliver.
use g_sierra.Common.{
  ℕ, suc, ◌≤◌, ◌<◌, ◌≡◌, refl, Bool, true, List, [], ◌∷◌, ◌++◌, ltb, ltb→lt, leb, if◌then◌else◌,
  length, take, Bool-cases, inl, inr, arith,
}
use g_sierra.Kernel.{Msgq}
use g_sierra.Lora.{
  Enumerators, Radio, Driver, lora_driver_init, lora_driver_send, lora_driver_receive,
  lora_driver_start_callback, lora_driver_stop_callback, delivery_of, lora_callback_handler,
  delivered, lora_max_msg_len, antenna_tx, antenna_rx,
}

-- The operations of the driver after its start.
pub data Op : Type 0 where
  send_op : List ℕ → Op
  receive_op : List ℕ → Op
  start_op stop_op : Op

-- The direction that an operation leaves in the configuration.
abbrev pub direction : Op → Bool → Bool
direction (send_op bytes) before = antenna_tx
direction (receive_op out) before = antenna_rx
direction start_op before = antenna_rx
direction stop_op before = before

abbrev pub direction_after : List Op → Bool → Bool
direction_after [] before = before
direction_after (o ∷ os) before = direction_after os (direction o before)

module _ (r : Radio) where
  open r use {Device, is_ready, configure, recv}

  pub run_op : Op → Driver Device → Driver Device
  run_op (send_op bytes) d = (lora_driver_send r bytes d).1
  run_op (receive_op out) d = (lora_driver_receive r out d).after
  run_op start_op d = (lora_driver_start_callback r d).1
  run_op stop_op d = (lora_driver_stop_callback r d).1

  pub run_ops : List Op → Driver Device → Driver Device
  run_ops [] d = d
  run_ops (o ∷ os) d = run_ops os (run_op o d)

  config-run_op :
      (o : Op) (d : Driver Device)
      → (run_op o d).config ≡ record d.config { tx = direction o d.config.tx }
  unfolding run_op lora_driver_send lora_driver_receive lora_driver_start_callback
      lora_driver_stop_callback
  config-run_op (send_op bytes) d = refl
  config-run_op (receive_op out) d = refl
  config-run_op start_op d = refl
  config-run_op stop_op d = refl

  -- Whatever the radio answers, no sequence of operations changes the configuration but for the
  -- antenna's direction, and that is the one of the last operation that needs one.
  pub config-run_ops :
      (os : List Op) (d : Driver Device)
      → (run_ops os d).config ≡ record d.config { tx = direction_after os d.config.tx }
  unfolding run_ops
  config-run_ops [] d = refl
  config-run_ops (o ∷ os) d = ground (arith, config-run_ops os (run_op o d), config-run_op o d)

  -- `lora_driver_init` reports success exactly when the device is ready. It then configures the radio
  -- once, for transmission, and a configuration that the radio refuses does not change its result.
  pub lora_driver_init_lem :
      (e : Enumerators) (d : Driver Device)
      → let (started, d') = lora_driver_init r e d in
        (started ≡ is_ready d.device)
        × (d'.config.tx ≡ antenna_tx)
        × (d'.device ≡ (if started then (configure d'.config d.device).1 else d.device))
  unfolding lora_driver_init
  lora_driver_init_lem e d = ground arith

module _ (k : Msgq) where
  open k use {
    Queue, contents, max_msgs, put, purge, put_room, put_room_result, put_full, put_full_result,
    contents-purge,
  }

  -- If 255 bytes can be read from `data` on and the queue has places for one message at least, two
  -- rounds of fuel are enough: the callback returns with these bytes in the queue as a message, behind
  -- the old ones if the queue had room, else alone, since all old messages are purged.
  pub lora_callback_handler_lem :
      (fuel : ℕ) (memory : List ℕ) (q : Queue)
      → 0 < max_msgs
      → lora_max_msg_len ≤ length memory
      → (q' : Queue) × (lora_callback_handler k (suc (suc fuel)) memory q ≡ delivered q')
        × (contents q'
            ≡ (if ltb (length (contents q)) max_msgs then contents q else [])
              ++ take lora_max_msg_len memory ∷ [])
  unfolding lora_callback_handler delivery_of
  lora_callback_handler_lem fuel memory q h enough =
      elim (Bool-cases (ltb (length (contents q)) max_msgs)) [
        | inl room ↦ (
          (put message q).1,
          rw (long, put_room_result message q (ltb→lt _ _ room)),
          rw (room, put_room message q (ltb→lt _ _ room)),
        )
        | inr full ↦ (
          (put message emptied).1,
          rw (
            long,
            put_full_result message q (ground arith),
            put_room_result message emptied empty,
          ),
          rw (full, put_room message emptied empty, contents-purge),
        )
      ]
    where
      message : List ℕ
      message = take lora_max_msg_len memory

      long : leb lora_max_msg_len (length memory) ≡ true
      long = ground arith

      emptied : Queue
      emptied = purge (put message q).1

      empty : length (contents emptied) < max_msgs
      empty = rw contents-purge h
