-- ===== src/Syscall/Read.antt =====
-- sys_read: the blocking read from the receive ring.
pub mod Rounds
pub mod Transfer
pub mod Blocking
pub mod Safety
use refix_os.Common.{ℕ, if◌then◌else◌, some, ◌==◌, suc, ltb, false, not, none, ◌+◌, true, zero}
use refix_os.Kernel.{Kernel, with_user_mem, poke, user_mem}
use refix_os.Uart.Ring.{Ring, uart_rx_pop}
use refix_os.Sched.{Sched, Switch, scheduler_block_on_input}
use refix_os.Syscall.Outcome.{Outcome, spinning, returned, parked, with_sched, e_fault}
use refix_os.Syscall.Pointer.{valid_user_ptr}

-- `buf[n++] = (char)c`, with the ring that the byte was popped from.
abbrev pub take_byte : Kernel → Ring → ℕ → ℕ → Kernel
take_byte k r va c = with_user_mem (record k { ring = r }) (poke (user_mem k) va c)

-- The end of a round that found the ring empty at `n` = 0: `scheduler_block_on_input`, which calls
-- `context_switch`, or returns at once and lets the loop go on as `again`.
abbrev pub sleep_or : Kernel → Sched × Switch → (Kernel → Outcome) → Outcome
sleep_or k (s, some sw) again = parked (with_sched k s) sw
sleep_or k (s, none) again = again (with_sched k s)

-- The `while (n < len)` loop, on fuel.
unfoldable pub read_loop : ℕ → Kernel → ℕ → ℕ → ℕ → Outcome
read_loop zero k buf len n = spinning k
read_loop (suc fuel) k buf len n = elim (ltb n len) [
  | false ↦ returned k n
  | true ↦ elim (uart_rx_pop k.ring).0 [
    | some c ↦ read_loop fuel (take_byte k (uart_rx_pop k.ring).1 (buf + n) c) buf len (n + 1)
    | none ↦ elim (ltb 0 n) [
      | true ↦ returned k n
      | false ↦ sleep_or k (scheduler_block_on_input k.sched) (λ k'. read_loop fuel k' buf len n)
    ]
  ]
]

unfoldable pub sys_read : ℕ → Kernel → ℕ → ℕ → ℕ → Outcome
sys_read fuel k fd buf_addr len =
    if len == 0
    then returned k 0
    else if not (valid_user_ptr buf_addr len)
    then returned k e_fault
    else read_loop fuel k buf_addr len 0
