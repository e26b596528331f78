-- ===== src/Tests/Modem.antt =====
-- gsm_driver.c, heartbeat_handler.c and the devices' part of main.c at fixed inputs.
use g_sierra.Common.{
  codes, ℕ, zero, suc, ◌≡◌, refl, inr, true, false, some, List, [], ◌∷◌, ◌++◌, map, replicate, cstr,
  All, arith,
}
use g_sierra.Common.Int.{ℤ, pos, negsuc}
use g_sierra.Kernel.{Msgq, list_msgq}
use g_sierra.Node.{Node, null}
use g_sierra.Uart.{Uart, serial_cb, read_fifo, receive_byte, ends_line}
use g_sierra.Uart.Lines.{
  Reader, Represents, accept, accept_all, serial_cb-Represents, serial_cb_long_line,
}
use g_sierra.Effects.{one_shot, World, done}
use g_sierra.Gsm.{gsm_init_commands, send_at_command}
use g_sierra.Gsm.Commands.{send_at_command_lem, command_trace}
use g_sierra.Signal.{read_msg_q, blocked, get_signal_strength}
use g_sierra.Signal.Console.{shown, read_msg_q-serial_cb}
use g_sierra.Signal.Csq.{decimal, after_messages, after_messages_last, get_signal_strength_blocks}
use g_sierra.Heartbeat.{Encoder, send_heartbeat}
use g_sierra.App.{Board, main}
use g_sierra.App.Wire.{wire, with_line_feeds, wire-main}
use g_sierra.Boot.{Globals, Platform}
use g_sierra.Boot.Identity.{IsNamed}

abbrev new_board : Globals
new_board = record {
  n = record { id = record { uuid = []; str = null }; status = false };
  uuid_str = [];
  backup_value = replicate 16 0;
}

abbrev first_start : Platform
first_start = record { sram_ready = true; uptime = 1000; rand1 = 7; rand2 = 9 }

abbrev queue : Msgq
queue = list_msgq 20

abbrev idle_uart : Uart (List (List ℕ))
idle_uart = record { rx_buf = replicate 1280 0; rx_buf_pos = 0; uart_msgq = [] }

abbrev answer : List ℕ
answer = codes "OK" ++ 13 ∷ 10 ∷ codes "+CSQ: 17,99" ++ 10 ∷ codes "AT"

serial_cb_runs :
    map cstr (serial_cb queue true true answer idle_uart).uart_msgq
    ≡ codes "OK" ∷ codes "+CSQ: 17,99" ∷ []
unfolding serial_cb read_fifo receive_byte
serial_cb_runs = refl

abbrev empty_reader : Reader
empty_reader = record { pending = []; lines = [] }

idle-Represents : Represents queue idle_uart empty_reader
idle-Represents = record {
  size = refl;
  position = refl;
  short = omega arith;
  buffered = refl;
  text = tt;
  waiting = refl;
}

serial_cb-Represents_example :
    Represents queue
      (serial_cb queue true true answer idle_uart)
      (accept_all 20 answer empty_reader)
unfolding accept_all accept
serial_cb-Represents_example =
    serial_cb-Represents queue answer idle_uart empty_reader idle-Represents (omega arith)

read_msg_q-serial_cb_example :
    read_msg_q (map some (queue.contents (serial_cb queue true true answer idle_uart).uart_msgq))
    ≡ (shown (accept_all 20 answer empty_reader).lines, true)
unfolding accept_all accept
read_msg_q-serial_cb_example =
    read_msg_q-serial_cb queue answer idle_uart empty_reader idle-Represents (omega arith)

All-replicate : (n : ℕ) → All (λ c. ends_line c ≡ false) (replicate n 65)
All-replicate zero = tt
All-replicate (suc n) = (refl, All-replicate n)

serial_cb_long_line_example :
    let s = serial_cb queue true true (replicate 256 65 ++ 10 ∷ []) idle_uart in
    (s.uart_msgq ≡ []) × (s.rx_buf_pos ≡ 0)
serial_cb_long_line_example =
    serial_cb_long_line queue (replicate 256 65) 10 idle_uart (All-replicate 256) refl refl refl

abbrev fresh : World ℕ
fresh = record { timer = 0; trace = [] }

-- `-ENOTSUP` and `-ENOSYS` of Zephyr.
abbrev enotsup : ℤ
enotsup = negsuc 133

abbrev enosys : ℤ
enosys = negsuc 87

send_at_command_lem_example :
    (t : ℕ) × (send_at_command one_shot 2 (codes "+++") fresh
      ≡ done (record { timer = t; trace = command_trace (codes "+++") }))
send_at_command_lem_example = send_at_command_lem one_shot 0 (codes "+++") fresh

abbrev csq : List ℕ
csq = codes "+CSQ: 17,99" ++ 0 ∷ codes "stale"

csq-decimal : cstr csq ≡ codes "+CSQ: " ++ (decimal 17 ++ b',' ∷ codes "99")
unfolding decimal
csq-decimal = refl

-- What `atoi` gives for a number that is no `int`.
abbrev no_int : List ℕ → ℤ
no_int s = negsuc 0

after_messages_last_example :
    after_messages no_int (codes "OK" ∷ csq ∷ codes "AT+CSQ" ∷ []) (pos 0) ≡ pos 17
after_messages_last_example =
    after_messages_last no_int (codes "OK" ∷ []) (codes "AT+CSQ" ∷ []) 17 (codes "99") csq (pos 0)
      (omega arith) csq-decimal (inr refl, tt)

get_signal_strength_blocks_example :
    (t : ℕ) × (get_signal_strength one_shot no_int 2 (some csq ∷ []) fresh
      ≡ blocked (after_messages no_int (csq ∷ []) (pos 0)) (record {
        timer = t;
        trace = command_trace (codes "+++") ++ command_trace (codes "AT+CSQ");
      }))
get_signal_strength_blocks_example = get_signal_strength_blocks one_shot no_int 0 (csq ∷ []) fresh

abbrev node : Node
node = record { id = record { uuid = []; str = null }; status = true }

abbrev failing : Encoder
failing n size = (negsuc 11, [])

abbrev braces : Encoder
braces n size = (pos 0, codes "{}")

-- The three cases of the unit tests.
heartbeat_below : (send_heartbeat braces (pos 9) node).result ≡ pos 0
unfolding send_heartbeat
heartbeat_below = refl

heartbeat_above : (send_heartbeat braces (pos 11) node).result ≡ pos 1
unfolding send_heartbeat
heartbeat_above = refl

heartbeat_not_known : (send_heartbeat braces (pos 99) node).result ≡ pos 0
unfolding send_heartbeat
heartbeat_not_known = refl

abbrev board : Board
board = record {
  enotsup = enotsup;
  enosys = enosys;
  uart_ready = true;
  callback_result = pos 0;
  pointer_size = 4;
}

wire-main_example :
    let (g, run) = main one_shot first_start board 2 (codes "ATI" ∷ []) new_board fresh in
    IsNamed g
    × ((w : World ℕ) × (run ≡ done w)
        × (wire w.trace
            ≡ wire [] ++ (with_line_feeds gsm_init_commands ++ with_line_feeds (codes "ATI" ∷ []))))
wire-main_example = wire-main one_shot first_start board 0 (codes "ATI" ∷ []) new_board fresh refl
