-- ===== src/Kernel/Tty.antt =====
-- driver/tty.c: the ring buffer between the interrupt that receives a character and the calls that
-- read one. A call runs between two interrupts as one step.
pub mod Laws
pub mod Runs
use manux.Common.{
  ltb, ◌==◌, if◌then◌else◌, add8, sub8, Bytes, store, ℕ, ◌+◌, ◌%◌, Option, none, some, List, [],
  ◌∷◌, ◌++◌,
}

-- The buffer and its three bytes, and what was written to the port TTY_DATA, in order.
pub record Tty : Type 0 where
  pub buffer : Bytes
  pub head : ℕ
  pub tail : ℕ
  pub count : ℕ
  pub sent : List ℕ

-- TTY_BUF_SIZE
abbrev pub buf_size : ℕ
buf_size = 250

-- TTY_BUF, a pointer of which `*tty_buffer_head = tty_buffer` stores the low byte.
abbrev pub tty_buf : ℕ
tty_buf = 0x2106

unfoldable pub tty_init : Tty → Tty
tty_init t = record t { count = 0; head = tty_buf % 256; tail = tty_buf % 256 }

-- z80_rst_38h: the character that the port gives goes into the buffer, or is lost if it is full.
unfoldable pub rst_38h : Tty → ℕ → Tty
rst_38h t c =
    if ltb t.count buf_size
    then record t {
      buffer = store t.buffer t.head c;
      head = (t.head + 1) % buf_size;
      count = add8 t.count 1;
    }
    else t

-- The statements behind the wait.
unfoldable pub take_char : Tty → ℕ × Tty
take_char t = (t.buffer t.tail, record t { tail = (t.tail + 1) % buf_size; count = sub8 t.count 1 })

-- `none` while the call waits for a character.
unfoldable pub tty_getchar : Tty → Option (ℕ × Tty)
tty_getchar t = if t.count == 0 then none else some (take_char t)

unfoldable pub tty_putchar : Tty → ℕ → Tty
tty_putchar t c = record t { sent = t.sent ++ (c ∷ []) }

-- z80_rst_10h: the character, which is echoed.
unfoldable pub rst_10h : Tty → Option (ℕ × Tty)
rst_10h t = elim (tty_getchar t) [ none ↦ none | some (c, t1) ↦ some (c, tty_putchar t1 c) ]
