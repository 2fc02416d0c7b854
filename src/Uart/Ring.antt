-- ===== src/Uart/Ring.antt =====
-- The receive ring of kernel/drivers/uart/uart_core.c (lines 23 to 49): one producer, the UART's
-- interrupt, and one consumer, sys_read. The two cursors run freely as `uint32_t`.
pub mod Queue
pub mod Refine
mod Tests
use refix_os.Common.{
  ℕ, ◌%◌, Bool, List, Option, none, some, add32, get_or, set, replicate, ◌==◌, if◌then◌else◌,
}

abbrev pub uart_rx_buf_size : ℕ
uart_rx_buf_size = 128

-- `x & UART_RX_MASK`: the mask is one less than a power of two.
abbrev pub mask : ℕ → ℕ
mask x = x % uart_rx_buf_size

pub record Ring : Type 0 where
  pub rx_buf : List ℕ
  pub rx_head : ℕ
  pub rx_tail : ℕ

-- The static storage before the first byte.
unfoldable pub ring_start : Ring
ring_start = record { rx_buf = replicate uart_rx_buf_size 0; rx_head = 0; rx_tail = 0 }

-- A byte that finds the ring full is dropped.
unfoldable pub uart_rx_push : Ring → ℕ → Ring
uart_rx_push r c =
    let next = add32 r.rx_head 1 in
    if mask next == mask r.rx_tail
    then r
    else record r { rx_buf = set r.rx_buf (mask r.rx_head) c; rx_head = next }

unfoldable pub uart_rx_empty : Ring → Bool
uart_rx_empty r = r.rx_head == r.rx_tail

-- The C function returns -1 for `none`.
unfoldable pub uart_rx_pop : Ring → Option ℕ × Ring
uart_rx_pop r =
    if r.rx_head == r.rx_tail
    then (none, r)
    else (some (get_or r.rx_buf (mask r.rx_tail) 0), record r { rx_tail = add32 r.rx_tail 1 })
