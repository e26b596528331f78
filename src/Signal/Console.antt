-- ===== src/Signal/Console.antt =====
-- What the modem sends and what `read_msg_q` prints.
use g_sierra.Common.{ℕ, ◌≡◌, refl, ◌∙◌, ap, true, some, List, [], ◌∷◌, ◌++◌, map, cstr}
use g_sierra.Kernel.{Msgq}
use g_sierra.Uart.{Uart, serial_cb}
use g_sierra.Uart.Lines.{Reader, accept_all, StaysShort, Represents, serial_cb-Represents}
use g_sierra.Signal.{read_msg_q}

-- Lines as they stand on a console.
unfoldable pub shown : List (List ℕ) → List ℕ
shown [] = []
shown (l ∷ ls) = l ++ b'\n' ∷ shown ls

read_msg_q-some : (ms : List (List ℕ)) → read_msg_q (map some ms) ≡ (shown (map cstr ms), true)
unfolding read_msg_q shown
read_msg_q-some [] = refl
read_msg_q-some (m ∷ ms) = rw (read_msg_q-some ms) refl

-- While every line stays below 256 characters, what `read_msg_q` prints of the queue after an interrupt
-- with readable data is the lines of the specification, whole and in their order, one to a line; then it
-- waits.
pub read_msg_q-serial_cb :
    (k : Msgq) (fifo : List ℕ) (s : Uart k.Queue) (r : Reader)
    → Represents k s r
    → StaysShort k.max_msgs fifo r
    → read_msg_q (map some (k.contents (serial_cb k true true fifo s).uart_msgq))
      ≡ (shown (accept_all k.max_msgs fifo r).lines, true)
read_msg_q-serial_cb k fifo s r h short =
    let after = serial_cb-Represents k fifo s r h short in
    read_msg_q-some (k.contents (serial_cb k true true fifo s).uart_msgq)
    ∙ ap (λ ls. (shown ls, true)) after.waiting
