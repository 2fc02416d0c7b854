-- ===== src/Syscall/Read/Rounds.antt =====
-- One round of the loop of sys_read, in each of its cases.
use refix_os.Common.{ℕ, ◌<◌, ◌≤◌, ◌≡◌, suc, none, some, ◌+◌, arith, true}
use refix_os.Kernel.{Kernel}
use refix_os.Syscall.Read.{read_loop, take_byte, sleep_or, sys_read}
use refix_os.Uart.Ring.{uart_rx_pop}
use refix_os.Syscall.Outcome.{returned}
use refix_os.Sched.{scheduler_block_on_input}
use refix_os.Syscall.Pointer.{valid_user_ptr}

module _ (fuel : ℕ) (k : Kernel) (buf len n : ℕ) where
  pub round_full : len ≤ n → read_loop (suc fuel) k buf len n ≡ returned k n
  unfolding read_loop
  round_full h = ground arith

  pub round_byte :
      (c : ℕ)
      → n < len
      → (uart_rx_pop k.ring).0 ≡ some c
      → read_loop (suc fuel) k buf len n
        ≡ read_loop fuel (take_byte k (uart_rx_pop k.ring).1 (buf + n) c) buf len (n + 1)
  unfolding read_loop
  round_byte c h e = ground arith

  pub round_drained :
      n < len
      → 0 < n
      → (uart_rx_pop k.ring).0 ≡ none
      → read_loop (suc fuel) k buf len n ≡ returned k n
  unfolding read_loop
  round_drained h p e = ground arith

  pub round_asleep :
      n < len
      → n ≡ 0
      → (uart_rx_pop k.ring).0 ≡ none
      → read_loop (suc fuel) k buf len n
        ≡ sleep_or k (scheduler_block_on_input k.sched) (λ k'. read_loop fuel k' buf len n)
  unfolding read_loop
  round_asleep h z e = ground arith

-- sys_read reaches its loop when there is room and the buffer passes the check.
pub sys_read_enters :
    (fuel : ℕ) (k : Kernel) (fd buf len : ℕ)
    → 0 < len
    → valid_user_ptr buf len ≡ true
    → sys_read fuel k fd buf len ≡ read_loop fuel k buf len 0
unfolding sys_read
sys_read_enters fuel k fd buf len pos ok = ground arith
