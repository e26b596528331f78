-- ===== src/Lib.antt =====
-- Verification of the mesh node of 4G-sierra: the firmware of samples/mesh and the simulated board it
-- runs on.
--
-- Parts of the program. A node takes or keeps an identity in backup SRAM (`boot`), starts the 4G modem
-- over a UART (`gsm_modem_init`), and then forwards console lines to it (`forward_lines`). The UART
-- interrupt collects the modem's answers in a queue, which `get_signal_strength` reads; a timer asks
-- for a heartbeat, which chooses between the server and LoRa. On a host the firmware runs on the board
-- native_posix, whose models are a timer, a counter and an interrupt controller under one scheduler
-- of events.
--
-- Files.
--   Common: the shared names of the libraries, lists and Booleans over native numbers, words of fixed
--     width, sets of bits, C strings, signed integers, chains of steps that may fail.
--   Kernel, Effects: what the firmware uses of Zephyr, as records with laws (the message queue and the
--     timer), and the trace of effects that the platform sees.
--   Node: samples/mesh/src/node.c (`generate_id`, `uuid_to_str`, `is_valid_uuid_v6`). UnitTest:
--     samples/mesh/unit_test_prototype/src/main.c, its checker, its cases (UnitTest.Suite) and its mock.
--   Sram: src/sram_setup.c. Boot: the first part of `main` in src/main.c.
--   Uart: `serial_cb` of src/gsm_driver.c, on the state rx_buf, rx_buf_pos and uart_msgq. Gsm: its start
--     and `send_at_command`. Signal: `get_signal_strength` and `read_msg_q`.
--   Heartbeat: src/heartbeat_handler.c. Lora: src/lora_driver.c. App: the whole of `main`.
--   Sim: samples/mesh/boards/posix/native_posix. The record `Hw` holds the static variables of all
--     the models. Sim.Irq is irq_ctrl.c, Sim.Timer timer_model.c, Sim.Counter hw_counter.c, Sim.Top
--     hw_models_top.c and `posix_exec_for` of main.c, Sim.Handler irq_handler.c (Sim.Handler.Offload
--     its part under CONFIG_IRQ_OFFLOAD), Sim.Clock native_rtc.c and cpu_wait.c. Sim.Machine puts
--     them together: the initial values, `hwm_init`, and the loop of `main`, as the relation `Reach`
--     on states, with the software as any list of its calls that return. Sim.Ratio is what
--     timer_model.c does with floating point: the ratio of the clocks, the pause of the host before
--     a tick, and the callbacks of the options. Sim.Start is `posix_init` of main.c, where the
--     command line, those callbacks and `hwm_init` come together, Sim.Fuzz the entry of the fuzzer
--     there, and Sim.Process the printing of tracing.c and `posix_exit` of main.c. Sim.Signals is
--     `hwm_set_sig_handler` of hw_models_top.c, over a record of what the host documents of its
--     signals.
--   Cmdline: cmdline_common.c of that board; Cmdline.Help its help texts, Cmdline.Parse and
--     Cmdline.Table cmdline.c, and Cmdline.Options the options of cmdline.c, tracing.c and timer_model.c.
--   Actinius: samples/mesh/boards/common/actinius.
--   Tests: runs at fixed inputs.
-- A child module of these holds proofs, named for what they are about.
--
-- How the code is written down. A function of C is a function on the record of the variables that it
-- changes, under the same name. Words wrap where the code lets them (`u8`, `u32`, `u64`); a 64-bit
-- set of interrupts is the list of its bits. -1 for "none" is `none`. Strings are lists of character
-- codes. Exits of the process are results of their own, and so are the reads outside an array of
-- `gsm_modem_init`, of `lora_callback_handler` and of the search for the highest interrupt. The tables
-- of the interrupts have 32 entries and are for numbers below 32: for another number, which the code
-- would use as an index all the same, the model reads an empty entry and writes nothing. The search
-- asks for no such number; it ends as `search_outside` where the code would.
--
-- Fuel. The wait for the timer in `send_at_command` runs on fuel; two calls are enough by what the
-- kernel documents. The search for the highest interrupt has 65 rounds: each takes one of 64 bits.
-- `posix_irq_handler` needs more rounds than interrupts are pending, and `arch_busy_wait`, where the
-- CPU is woken at most `m` times in a row without time passing, `m + 1` for each microsecond and `m`
-- more. A round of `posix_exec_for` brings time forward or makes one of the four timers that are due
-- at the present wait, so 8 rounds for each microsecond and 7 more are enough, and `posix_cpu_hold`
-- needs a round for each microsecond. The help of an option takes a character of its description with
-- each line, so the length of the description is enough.
--
-- Not modelled: printing by the firmware, the cache of the SRAM, the arithmetic of floating point (a
-- parameter), threads and the swap between them (a parameter), what `atoi` does with a number that is
-- no `int` (a parameter), software that ends the process itself during an event of Sim.Machine (by
-- `posix_exit`, or at an interrupt without a handler, which Sim.Process and Sim.Handler model each on
-- its own), the boot tasks of the kernel, src/state_machine.c (commented out), and inc/config.h
-- (unused).
mod Common
pub mod Kernel
pub mod Node
pub mod UnitTest
pub mod Sram
pub mod Boot
pub mod Uart
pub mod Effects
pub mod Gsm
pub mod Signal
pub mod Heartbeat
pub mod Lora
pub mod App
pub mod Sim
pub mod Cmdline
pub mod Actinius
mod Tests
