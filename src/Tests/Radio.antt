-- ===== src/Tests/Radio.antt =====
-- lora_driver.c at fixed inputs.
use g_sierra.Common.{ℕ, ◌+◌, ◌≡◌, refl, true, false, some, List, [], ◌∷◌, replicate, arith}
use g_sierra.Common.Int.{pos, negsuc}
use g_sierra.Kernel.{Msgq, list_msgq}
use g_sierra.Lora.{
  LoraModemConfig, Enumerators, Radio, Driver, lora_driver_receive, lora_callback_handler,
  delivered, over_read,
}
use g_sierra.Lora.Laws.{lora_callback_handler_lem}

-- A radio that counts its calls, refuses every configuration, and receives two bytes.
abbrev stubborn : Radio
stubborn = record {
  Device = ℕ;
  is_ready = λ d. true;
  configure = λ c d. (negsuc 21, d + 1);
  send = λ bytes d. (pos 0, d + 1);
  recv = λ size d. (
    record { len = pos 2; bytes = 5 ∷ 6 ∷ []; rssi = some (negsuc 79); snr = some (pos 7) },
    d + 1,
  );
  recv_async = λ given d. (pos 0, d + 1);
}

abbrev values : Enumerators
values = record { bw_250_khz = 1; sf_8 = 8; cr_4_5 = 1 }

abbrev config : LoraModemConfig
config = record {
  frequency = 865100000;
  bandwidth = 1;
  datarate = 8;
  preamble_len = 8;
  coding_rate = 1;
  iq_inverted = false;
  public_network = false;
  tx_power = 4;
  tx = true;
}

abbrev driver : Driver ℕ
driver = record { config = config; device = 0 }

-- The radio has received two bytes, and the caller's buffer does not have them.
lora_driver_receive_keeps :
    let got = lora_driver_receive stubborn (9 ∷ 9 ∷ []) driver in
    (got.result ≡ true) × (got.rssi ≡ some (negsuc 79)) × (got.out ≡ 9 ∷ 9 ∷ [])
unfolding lora_driver_receive
lora_driver_receive_keeps = (refl, refl, refl)

-- A packet of four bytes is read past its end.
lora_callback_handler_short : lora_callback_handler (list_msgq 1) 2 (replicate 4 3) [] ≡ over_read
unfolding lora_callback_handler
lora_callback_handler_short = refl

abbrev one_place : Msgq
one_place = list_msgq 1

lora_callback_handler_lem_example :
    (q : List (List ℕ)) × (lora_callback_handler one_place 2 (replicate 256 3) ((7 ∷ []) ∷ [])
      ≡ delivered q)
    × (q ≡ replicate 255 3 ∷ [])
lora_callback_handler_lem_example =
    lora_callback_handler_lem one_place 0 (replicate 256 3) ((7 ∷ []) ∷ []) (omega arith)
      (omega arith)
