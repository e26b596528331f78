-- ===== src/Uart/Lines.antt =====
-- `serial_cb` against a reader of lines with a bounded queue, and what happens to long lines.
use g_sierra.Common.{
  ℕ, ◌+◌, ◌%◌, ◌<◌, ◌≡◌, refl, Bool, true, false, ◌&&◌, List, [], ◌∷◌, ◌++◌, map, ltb, ◌==◌,
  if◌then◌else◌, length, take, set, cstr, cstr-set, take-set-suc, All, All-snoc, length-set,
  length-append, length-map, ltb→lt, arith, Bool-cases, inl, inr,
}
use mathlib.Core.List.{map-append}
use g_sierra.Kernel.{Msgq}
use g_sierra.Uart.{Uart, ends_line, receive_byte, read_fifo, serial_cb, uart_max_msg_len}

-- The specification: the line that is being read, and the lines that wait, the oldest first.
pub record Reader : Type 0 where
  pub pending : List ℕ
  pub lines : List (List ℕ)

-- A full queue drops the newest line.
abbrev pub offer : ℕ → List ℕ → List (List ℕ) → List (List ℕ)
offer max line lines = if ltb (length lines) max then lines ++ line ∷ [] else lines

-- An end of line hands the pending line over, if there is one; any other byte extends it.
unfoldable pub accept : ℕ → ℕ → Reader → Reader
accept max c r =
    if ends_line c
    then (if length r.pending == 0
        then r
        else record { pending = []; lines = offer max r.pending r.lines })
    else record r { pending = r.pending ++ c ∷ [] }

unfoldable pub accept_all : ℕ → List ℕ → Reader → Reader
accept_all max [] r = r
accept_all max (c ∷ cs) r = accept_all max cs (accept max c r)

-- No pending line reaches 256 characters while the bytes are read.
abbrev pub StaysShort : ℕ → List ℕ → Reader → Type 0
StaysShort max [] r = Unit
StaysShort max (c ∷ cs) r =
    (length (accept max c r).pending < 256) × StaysShort max cs (accept max c r)

length-accept :
    (max c : ℕ) (r : Reader)
    → ends_line c ≡ false
    → length (accept max c r).pending ≡ length r.pending + 1
unfolding accept
length-accept max c r e = rw e (length-append r.pending (c ∷ []))

module _ (k : Msgq) where
  open k use {Queue, contents, max_msgs, put, put_room, put_full}

  -- What the driver's state stands for.
  pub record Represents (s : Uart Queue) (r : Reader) : Type 0 where
    pub size : length s.rx_buf ≡ uart_max_msg_len
    pub position : s.rx_buf_pos ≡ length r.pending
    pub short : length r.pending < 256
    pub buffered : take s.rx_buf_pos s.rx_buf ≡ r.pending
    pub text : All (λ c. 0 < c) r.pending
    pub waiting : map cstr (contents s.uart_msgq) ≡ r.lines

  map-put :
      (m : List ℕ) (q : Queue)
      → map cstr (contents (put m q).1) ≡ offer max_msgs (cstr m) (map cstr (contents q))
  map-put m q = elim (Bool-cases (ltb (length (contents q)) max_msgs)) [
    | inl room ↦
        rw (length-map, room, put_room m q (ltb→lt _ _ room))
          (map-append cstr (contents q) (m ∷ []))
    | inr full ↦ rw (length-map, full, put_full m q (ground arith))
  ]

  module _ (c : ℕ) (s : Uart Queue) (r : Reader) (h : Represents s r) where
    store :
        ends_line c ≡ false
        → length r.pending + 1 < 256
        → Represents (receive_byte k c s) (accept max_msgs c r)
    unfolding receive_byte accept
    store e short = ground (
      arith,
      take-set-suc s.rx_buf s.rx_buf_pos c,
      length-set s.rx_buf s.rx_buf_pos c,
      length-append r.pending (c ∷ []),
      All-snoc (λ (x : ℕ). 0 < x) r.pending c h.text,
    )

    finish : ends_line c ≡ true → Represents (receive_byte k c s) (accept max_msgs c r)
    unfolding receive_byte accept
    finish e = ground (
      arith,
      length-set s.rx_buf s.rx_buf_pos 0,
      cstr-set s.rx_buf s.rx_buf_pos,
      map-put (set s.rx_buf s.rx_buf_pos 0) s.uart_msgq,
    )

  receive_byte-Represents :
      (c : ℕ) (s : Uart Queue) (r : Reader)
      → Represents s r
      → length (accept max_msgs c r).pending < 256
      → Represents (receive_byte k c s) (accept max_msgs c r)
  receive_byte-Represents c s r h short = elim (Bool-cases (ends_line c)) [
    | inl e ↦ finish c s r h e
    | inr e ↦ store c s r h e (omega (arith, length-accept max_msgs c r e))
  ]

  read_fifo-Represents :
      (fifo : List ℕ) (s : Uart Queue) (r : Reader)
      → Represents s r
      → StaysShort max_msgs fifo r
      → Represents (read_fifo k fifo s) (accept_all max_msgs fifo r)
  unfolding read_fifo accept_all
  read_fifo-Represents [] s r h short = h
  read_fifo-Represents (c ∷ cs) s r h short =
      read_fifo-Represents cs (receive_byte k c s) (accept max_msgs c r)
        (receive_byte-Represents c s r h short.0) short.1

  -- While every line stays below 256 characters, an interrupt with readable data takes the driver to
  -- the state of the specification: the same pending line, and the same lines waiting in the queue.
  pub serial_cb-Represents :
      (fifo : List ℕ) (s : Uart Queue) (r : Reader)
      → Represents s r
      → StaysShort max_msgs fifo r
      → Represents (serial_cb k true true fifo s) (accept_all max_msgs fifo r)
  unfolding serial_cb
  serial_cb-Represents fifo s r h short = read_fifo-Represents fifo s r h short

  read_fifo-append :
      (xs ys : List ℕ) (s : Uart Queue)
      → read_fifo k (xs ++ ys) s ≡ read_fifo k ys (read_fifo k xs s)
  unfolding read_fifo
  read_fifo-append [] ys s = refl
  read_fifo-append (x ∷ xs) ys s = read_fifo-append xs ys (receive_byte k x s)

  -- Where the interrupts cut the stream of bytes makes no difference, and an interrupt without
  -- readable data changes nothing.
  pub serial_cb-append :
      (xs ys : List ℕ) (update rx_ready : Bool) (s : Uart Queue)
      → (serial_cb k true true (xs ++ ys) s ≡ serial_cb k true true ys (serial_cb k true true xs s))
        × (serial_cb k update rx_ready ys s
            ≡ (if update && rx_ready then serial_cb k true true ys s else s))
  unfolding serial_cb
  serial_cb-append xs ys update rx_ready s = (read_fifo-append xs ys s, ground arith)

  -- Ordinary characters only move the position, modulo 256, and never touch the queue.
  read_fifo_text :
      (line : List ℕ) (s : Uart Queue)
      → All (λ c. ends_line c ≡ false) line
      → s.rx_buf_pos < 256
      → ((read_fifo k line s).rx_buf_pos ≡ (s.rx_buf_pos + length line) % 256)
        × ((read_fifo k line s).uart_msgq ≡ s.uart_msgq)
  unfolding read_fifo
  read_fifo_text [] s h p = (omega arith, refl)
  read_fifo_text (c ∷ cs) s h p =
      ground (arith, received, read_fifo_text cs (receive_byte k c s) h.1)
    where
      received :
          ((receive_byte k c s).rx_buf_pos ≡ (s.rx_buf_pos + 1) % 256)
          × ((receive_byte k c s).uart_msgq ≡ s.uart_msgq)
      received = unfold receive_byte in ground (arith, h.0)

  -- `rx_buf_pos` has eight bits for a buffer of 1280 bytes. A line whose length is a multiple of 256
  -- is lost: read from an empty buffer, with its end, it leaves the queue as it was.
  pub serial_cb_long_line :
      (line : List ℕ) (eol : ℕ) (s : Uart Queue)
      → All (λ c. ends_line c ≡ false) line
      → ends_line eol ≡ true
      → s.rx_buf_pos ≡ 0
      → length line % 256 ≡ 0
      → let s' = serial_cb k true true (line ++ eol ∷ []) s in
        (s'.uart_msgq ≡ s.uart_msgq) × (s'.rx_buf_pos ≡ 0)
  unfolding serial_cb
  serial_cb_long_line line eol s h e p m =
      rw (read_fifo-append line (eol ∷ []) s)
        (unfold read_fifo receive_byte in ground (arith, read_fifo_text line s h, e))
