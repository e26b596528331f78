-- ===== src/Uart.antt =====
-- samples/mesh/src/gsm_driver.c, `serial_cb`: the interrupt callback that cuts what the modem
-- sends into lines and puts them into `uart_msgq`.
pub mod Lines
use g_sierra.Common.{
  ℕ, ◌+◌, ◌-◌, Bool, true, false, not, ◌&&◌, ◌||◌, List, [], ◌∷◌, ltb, ◌==◌, if◌then◌else◌, set, u8,
}
use g_sierra.Kernel.{Msgq}

abbrev pub uart_max_msg_len : ℕ
uart_max_msg_len = 1280

abbrev pub uart_max_msg_queue_size : ℕ
uart_max_msg_queue_size = 20

-- `rx_buf` and `rx_buf_pos` (an `uint8_t`) of gsm_driver.h, and `uart_msgq`.
pub record Uart (Queue : Type 0) : Type 0 where
  pub rx_buf : List ℕ
  pub rx_buf_pos : ℕ
  pub uart_msgq : Queue

-- `c == '\n' || c == '\r' || c == '\0'`
abbrev pub ends_line : ℕ → Bool
ends_line c = c == 10 || c == 13 || c == 0

module _ (k : Msgq) where
  open k use {Queue, put}

  -- The body of the `while` loop, on one byte read. The whole buffer is copied into the queue.
  unfoldable pub receive_byte : ℕ → Uart Queue → Uart Queue
  receive_byte c s =
      let terminated = set s.rx_buf s.rx_buf_pos 0 in
      if ends_line c && ltb 0 s.rx_buf_pos
      then record s {
        rx_buf = terminated;
        rx_buf_pos = 0;
        uart_msgq = (put terminated s.uart_msgq).1;
      }
      else if ltb s.rx_buf_pos (uart_max_msg_len - 1) && not (ends_line c)
      then record s { rx_buf = set s.rx_buf s.rx_buf_pos c; rx_buf_pos = u8 (s.rx_buf_pos + 1) }
      else s

  -- The bytes that `uart_fifo_read` returns, until it returns none.
  unfoldable pub read_fifo : List ℕ → Uart Queue → Uart Queue
  read_fifo [] s = s
  read_fifo (c ∷ cs) s = read_fifo cs (receive_byte c s)

  -- `update` and `rx_ready` are the answers of `uart_irq_update` and `uart_irq_rx_ready`.
  unfoldable pub serial_cb : Bool → Bool → List ℕ → Uart Queue → Uart Queue
  serial_cb update rx_ready fifo s =
      if not update then s else if not rx_ready then s else read_fifo fifo s
