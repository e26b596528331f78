-- ===== src/Lora.antt =====
-- samples/mesh/src/lora_driver.c and inc/lora_driver.h: the driver of the radio. The radio itself
-- is Zephyr's: a record of its calls, each from the state of the device to what it returns.
pub mod Laws
use g_sierra.Common.{
  ℕ, zero, suc, ◌+◌, Bool, true, false, not, Option, none, some, List, [], ◌∷◌, ◌++◌, leb,
  if◌then◌else◌, length, take,
}
use g_sierra.Common.Int.{ℤ, is_negative, is_nonzero}
use g_sierra.Kernel.{Msgq}

abbrev pub lora_max_msg_len : ℕ
lora_max_msg_len = 255

abbrev pub lora_max_msgq_len : ℕ
lora_max_msgq_len = 20

abbrev pub antenna_rx : Bool
antenna_rx = false

abbrev pub antenna_tx : Bool
antenna_tx = true

-- `struct lora_modem_config`. The enumerators of Zephyr are numbers.
pub record LoraModemConfig : Type 0 where
  pub frequency : ℕ
  pub bandwidth : ℕ
  pub datarate : ℕ
  pub preamble_len : ℕ
  pub coding_rate : ℕ
  pub iq_inverted : Bool
  pub public_network : Bool
  pub tx_power : ℕ
  pub tx : Bool

-- The values of BW_250_KHZ, SF_8 and CR_4_5.
pub record Enumerators : Type 0 where
  pub bw_250_khz : ℕ
  pub sf_8 : ℕ
  pub cr_4_5 : ℕ

-- What `lora_recv` returns and writes: its length or error, the bytes, and two measurements, each of
-- them nothing where the call leaves the variable untouched, as on an error.
pub record Reception : Type 0 where
  pub len : ℤ
  pub bytes : List ℕ
  pub rssi : Option ℤ
  pub snr : Option ℤ

-- The calls of the radio. `recv_async` is told whether a callback is given or `NULL`.
pub record Radio : Type 1 where
  pub Device : Type 0
  pub is_ready : Device → Bool
  pub configure : LoraModemConfig → Device → ℤ × Device
  pub send : List ℕ → Device → ℤ × Device
  pub recv : ℕ → Device → Reception × Device
  pub recv_async : Bool → Device → ℤ × Device

-- The global `config`, and the device.
pub record Driver (Device : Type 0) : Type 0 where
  pub config : LoraModemConfig
  pub device : Device

module _ (r : Radio) where
  open r use {Device, is_ready, configure, send, recv, recv_async}

  unfoldable pub config_lora : Driver Device → Bool × Driver Device
  config_lora d =
      let (ret, device') = configure d.config d.device in
      (not (is_negative ret), record d { device = device' })

  unfoldable pub set_tx_rx : Bool → Driver Device → Bool × Driver Device
  unfolding config_lora
  set_tx_rx value d = config_lora (record d { config = record d.config { tx = value } })

  -- `k_queue_init` of a queue that nothing else uses is left out.
  unfoldable pub lora_driver_init : Enumerators → Driver Device → Bool × Driver Device
  unfolding config_lora
  lora_driver_init e d =
      let d' : Driver Device = record d {
        config = record {
          frequency = 865100000;
          bandwidth = e.bw_250_khz;
          datarate = e.sf_8;
          preamble_len = 8;
          coding_rate = e.cr_4_5;
          iq_inverted = false;
          public_network = false;
          tx_power = 4;
          tx = antenna_tx;
        };
      } in
      if not (is_ready d'.device) then (false, d') else (true, (config_lora d').1)

  -- The result of `set_tx_rx` is dropped; the Boolean says whether a failed send was logged.
  unfoldable pub lora_driver_send : List ℕ → Driver Device → Bool × Driver Device
  unfolding set_tx_rx
  lora_driver_send bytes d =
      let d' = (set_tx_rx antenna_tx d).1 in
      let (ret, device') = send bytes d'.device in (is_negative ret, record d' { device = device' })

  -- The result of a call, the caller's buffer behind it, and what was written through the other two
  -- pointers: nothing where the caller's variable is untouched.
  pub record Received : Type 0 where
    pub result : Bool
    pub out : List ℕ
    pub rssi : Option ℤ
    pub snr : Option ℤ
    pub after : Driver Device

  -- The caller's buffer is `out`. Both branches return before the `memcpy` into it.
  unfoldable pub lora_driver_receive : List ℕ → Driver Device → Received
  unfolding set_tx_rx
  lora_driver_receive out d =
      let d' = (set_tx_rx antenna_rx d).1 in
      let (reception, device') = recv lora_max_msg_len d'.device in
      record {
        result = if is_negative reception.len then false else true;
        out = out;
        rssi = reception.rssi;
        snr = reception.snr;
        after = record d' { device = device' };
      }

  unfoldable pub lora_driver_start_callback : Driver Device → Bool × Driver Device
  unfolding set_tx_rx
  lora_driver_start_callback d =
      let d' = (set_tx_rx antenna_rx d).1 in
      let (rec, device') = recv_async true d'.device in
      (not (is_negative rec), record d' { device = device' })

  unfoldable pub lora_driver_stop_callback : Driver Device → Bool × Driver Device
  lora_driver_stop_callback d =
      let (rec, device') = recv_async false d.device in
      (not (is_negative rec), record d { device = device' })

-- How a call of the callback goes: the queue that it leaves, a read behind the end of the packet's
-- memory, or a loop that the fuel was not enough for.
pub data Delivery (Queue : Type 0) : Type 0 where
  delivered : Queue → Delivery Queue
  over_read unfinished : Delivery Queue

unfoldable pub delivery_of : {Queue : Type 0} → Option Queue → Delivery Queue
delivery_of none = unfinished
delivery_of (some q) = delivered q

module _ (k : Msgq) where
  open k use {Queue, put, purge}

  -- The `while` loop, on fuel: nothing when the fuel has run out.
  unfoldable pub put_or_purge : ℕ → List ℕ → Queue → Option Queue
  put_or_purge zero m q = none
  put_or_purge (suc fuel) m q =
      let (ret, q') = put m q in
      let again = put_or_purge fuel m (purge q') in if is_nonzero ret then again else some q'

  -- The memory from `data` on is `memory`; the `memcpy` reads 255 bytes of it, whatever the size of
  -- the packet.
  unfoldable pub lora_callback_handler : ℕ → List ℕ → Queue → Delivery Queue
  unfolding put_or_purge delivery_of
  lora_callback_handler fuel memory q =
      if leb lora_max_msg_len (length memory)
      then delivery_of (put_or_purge fuel (take lora_max_msg_len memory) q)
      else over_read
