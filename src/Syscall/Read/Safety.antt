-- ===== src/Syscall/Read/Safety.antt =====
-- sys_read keeps to its caller's window.
use refix_os.Sched.Invariant
use refix_os.Common.{
  ℕ, ◌≡◌, some, ◌≤◌, ◌<◌, none, ◌+◌, suc, refl, Bool-cases, ltb, inr, arith, inl, Option-cases, ◌∙◌,
  zero,
}
use refix_os.Kernel.{Kernel}
use refix_os.Syscall.Read.{read_loop, take_byte, sleep_or}
use refix_os.Sched.{Sched, Switch, scheduler_block_on_input}
use refix_os.Kernel.Safe.{IsSafe}
use refix_os.Syscall.Pointer.{user_virt_base, user_region_size}
use refix_os.Syscall.Outcome.{Outcome, with_sched, kernel_of}
use refix_os.Uart.Ring.{uart_rx_pop}
use refix_os.Uart.Ring.Refine.{pop-IsValid}
use refix_os.Syscall.Read.Rounds.{round_full, round_byte, round_drained, round_asleep}
use refix_os.Sched.Invariant.{block_on_input-IsValid}
use refix_os.Sched.Wakeup.{block_stays}

module _ (c : ℕ) (k0 : Kernel) where
  -- One byte into the window.
  take_byte-IsSafe :
      (k : Kernel) (va b : ℕ)
      → k.sched.current ≡ some c
      → IsSafe c k0 k
      → user_virt_base ≤ va
      → va < user_virt_base + user_region_size
      → IsSafe c k0 (take_byte k (uart_rx_pop k.ring).1 va b)
  take_byte-IsSafe k va b cur v lo hi = record {
    sound = record { sched = v.sound.sched; ring = pop-IsValid k.ring v.sound.ring };
    confined = record {
      others = λ j x ne. ground (arith, v.confined.others j x ne);
      outside = λ x o. ground (arith, v.confined.outside x o);
    };
  }

  with_sched-IsSafe :
      (k : Kernel) (s : Sched) → IsSafe c k0 k → Invariant.IsValid s → IsSafe c k0 (with_sched k s)
  with_sched-IsSafe k s v w = record {
    sound = record { sched = w; ring = v.sound.ring };
    confined = record { others = v.confined.others; outside = v.confined.outside };
  }

  sleep_or-IsSafe :
      (k : Kernel) (p : Sched × Switch) (again : Kernel → Outcome)
      → IsSafe c k0 (with_sched k p.0)
      → (p.1 ≡ none → IsSafe c k0 (kernel_of (again (with_sched k p.0))))
      → IsSafe c k0 (kernel_of (sleep_or k p again))
  sleep_or-IsSafe k (s, none) again v w = w refl
  sleep_or-IsSafe k (s, some sw) again v w = v

  pub read_loop-IsSafe :
      (fuel : ℕ) (k : Kernel) (buf len n : ℕ)
      → k.sched.current ≡ some c
      → IsSafe c k0 k
      → user_virt_base ≤ buf
      → buf + len ≤ user_virt_base + user_region_size
      → IsSafe c k0 (kernel_of (read_loop fuel k buf len n))
  unfolding read_loop
  read_loop-IsSafe zero k buf len n cur v lo hi = v
  read_loop-IsSafe (suc fuel) k buf len n cur v lo hi = elim (Bool-cases (ltb n len)) [
    | inr full ↦ rw (round_full fuel k buf len n (ground arith)) v
    | inl room ↦ elim (Option-cases (uart_rx_pop k.ring).0) [
      | inr (b, e) ↦ rw (round_byte fuel k buf len n b (ground arith) e) (
          read_loop-IsSafe fuel _ buf len (n + 1) cur
            (take_byte-IsSafe k (buf + n) b cur v (ground arith) (ground arith)) lo hi)
      | inl e ↦ elim (Bool-cases (ltb 0 n)) [
        | inl some_read ↦ rw (round_drained fuel k buf len n (ground arith) (ground arith) e) v
        | inr start ↦
            let asleep =
              with_sched-IsSafe k (scheduler_block_on_input k.sched).0 v
                (block_on_input-IsValid k.sched v.sound.sched) in
            rw (round_asleep fuel k buf len n (ground arith) (ground arith) e) (
              sleep_or-IsSafe k (scheduler_block_on_input k.sched) _ asleep (λ stay.
                read_loop-IsSafe fuel _ buf len n (block_stays k.sched v.sound.sched stay ∙ cur)
                  asleep lo hi))
      ]
    ]
  ]
