-- ===== src/Irq/Preempt.antt =====
-- Interrupts from the chip to the context switch.
use refix_os.Uart.Ring.Refine.{contents}
use refix_os.Uart.Ring.Queue.{capacity}
use refix_os.Common.{
  take, ◌++◌, ℕ, List, length, ◌≡◌, ◌≢◌, ◌<◌, ◌∙◌, ap, refl, Option, some, true, arith,
}
use refix_os.Exception.{Handled, after_irq, schedule_tail, handle_irq, switched}
use refix_os.Irq.Bus.{Bus}
use refix_os.Irq.Filled.{contents-push_all}
use refix_os.Irq.Core.{IntcOps, Intc, timer_irq, irq_dispatch, uart_rx_irq}
use refix_os.Irq.Dispatched.{dispatch_registered, served}
use refix_os.Irq.Handlers.{run_handler, received, uart0_base, irq_uart0, irq_timer}
use refix_os.Irq.Timers.{tick, sp804_irq, dmtimer_irq}
use refix_os.Kernel.{Kernel}
use refix_os.Kernel.Sound.{IsSound}
use refix_os.Mmu.{Board, qemu, bbb}
use refix_os.Proc.{blocked, num_processes}
use refix_os.Sched.{state_of, is_runnable, scheduler_wake_reader, scheduler_tick}
use refix_os.Sched.Wakeup.{wake_preempts}
use refix_os.Irq.Drained.{IsPl011, IsNs16550, push_all, pl011_rx_irq_lem, ns16550_rx_irq_lem}
use refix_os.Sched.Handover.{due_hands_over}
use refix_os.Sched.Invariant.{scheduler_tick-IsValid}
use refix_os.Sched.Decision.{hand_over}
use refix_os.Sched.Spec.{cleared}
use refix_os.Timer.{on_scheduler_tick, timer_tick}
use refix_os.Syscall.Outcome.{with_sched}

tick_eq :
    (k : Kernel)
    → k.timer.user_handler ≡ some on_scheduler_tick
    → tick k ≡ record k { timer = (timer_tick k.timer).0; sched = scheduler_tick k.sched }
unfolding tick timer_tick
tick_eq k h = rw (h, tick)

module _ {D : Type 0} (bus : Bus D) (fuel : ℕ) (ops : IntcOps D) where
  -- The whole of handle_irq on a board, whose devices are on `bus` behind the controller `ops`.
  abbrev pub interrupt : Board → Intc D → Kernel → Option (Intc D × Handled)
  interrupt b i k = handle_irq (irq_dispatch ops (run_handler bus fuel b) i) k

  timer_served :
      (b : Board) (i : Intc D) (k : Kernel) (d : D)
      → ops.get_active i.device ≡ (irq_timer b, d)
      → i.irq_table (irq_timer b) ≡ some timer_irq
      → (i' : Intc D) × (irq_dispatch ops (run_handler bus fuel b) i k ≡ some (i', tick k))
  unfolding run_handler sp804_irq dmtimer_irq
  timer_served qemu i k d a e =
      (_, dispatch_registered ops (run_handler bus fuel qemu) i k 36 d timer_irq a (omega arith) e)
  timer_served bbb i k d a e =
      (_, dispatch_registered ops (run_handler bus fuel bbb) i k 68 d timer_irq a (omega arith) e)

  -- A tick of the timer takes the processor from whoever has it, on both boards: when the controller
  -- reports the timer's line, with timer_irq registered for it and scheduler_tick for the timer, and
  -- another process is READY or RUNNING, handle_irq switches to such a process.
  pub timer_preempts :
      (b : Board) (i : Intc D) (k : Kernel) (d : D) (c j : ℕ)
      → IsSound k
      → ops.get_active i.device ≡ (irq_timer b, d)
      → i.irq_table (irq_timer b) ≡ some timer_irq
      → k.timer.user_handler ≡ some on_scheduler_tick
      → k.sched.current ≡ some c
      → j < num_processes
      → j ≢ c
      → is_runnable (state_of k.sched j) ≡ true
      → (i' : Intc D) × (k' : Kernel) × (n : ℕ) × (interrupt b i k ≡ some (i', switched k' (c, n)))
        × (n ≢ c)
        × (is_runnable (state_of k.sched n) ≡ true)
        × (k'.sched.current ≡ some n)
  unfolding handle_irq scheduler_tick
  timer_preempts b i k d c j v a e h cur lt ne run =
      let (i', q) = timer_served b i k d a e in
      let k1 = record k { timer = (timer_tick k.timer).0; sched = scheduler_tick k.sched } in
      let (n, o) =
        due_hands_over (scheduler_tick k.sched) c j (scheduler_tick-IsValid v.sched) cur refl lt ne
          run in
      (
        i',
        with_sched k1 (hand_over (cleared (scheduler_tick k.sched)) c (some n)).0,
        n,
        ap after_irq (q ∙ ap (λ (t : Kernel). some (i', t)) (tick_eq k h))
            ∙ ap (λ p. some (i', schedule_tail k1 p)) o.equal,
        o.other,
        o.run,
        refl,
      )

-- The UART of the board behaves by its data sheet, with `waiting` the bytes that it holds.
abbrev pub IsUart : {D : Type 0} → Board → Bus D → (D → List ℕ) → Type 0
IsUart qemu bus waiting = IsPl011 bus (uart0_base qemu) waiting
IsUart bbb bus waiting = IsNs16550 bus (uart0_base bbb) waiting

-- The kernel after the interrupt, with the bytes in the ring and p, which slept, on the processor
-- instead of c.
abbrev pub woken : Kernel → List ℕ → ℕ → ℕ → Kernel
woken k bs c p =
    let t = scheduler_wake_reader k.sched in
    record k { ring = push_all k.ring bs; sched = (hand_over (cleared t) c (some p)).0 }

module _ {D : Type 0} (bus : Bus D) (fuel : ℕ) (ops : IntcOps D) where
  uart_served :
      (b : Board) (i : Intc D) (k : Kernel) (d : D) (waiting : D → List ℕ)
      → IsUart b bus waiting
      → length (waiting d) < fuel
      → ops.get_active i.device ≡ (irq_uart0 b, d)
      → i.irq_table (irq_uart0 b) ≡ some uart_rx_irq
      → (i' : Intc D) × (irq_dispatch ops (run_handler bus fuel b) i k
          ≡ some (
            i',
            record k { ring = push_all k.ring (waiting d); sched = scheduler_wake_reader k.sched },
          ))
  unfolding run_handler
  uart_served qemu i k d waiting chip h a e =
      let (d', q) = pl011_rx_irq_lem bus (uart0_base qemu) waiting chip fuel d k.ring k.sched h in
      (
        _,
        dispatch_registered ops (run_handler bus fuel qemu) i k 44 d uart_rx_irq a (omega arith) e
            ∙ ap (λ o. served ops (run_handler bus fuel qemu) i 44 (received k o)) q,
      )
  uart_served bbb i k d waiting chip h a e =
      let (d', q) = ns16550_rx_irq_lem bus (uart0_base bbb) waiting chip fuel d k.ring k.sched h in
      (
        _,
        dispatch_registered ops (run_handler bus fuel bbb) i k 72 d uart_rx_irq a (omega arith) e
            ∙ ap (λ o. served ops (run_handler bus fuel bbb) i 72 (received k o)) q,
      )

  pub key_wakes_eq :
      (b : Board) (i : Intc D) (k : Kernel) (d : D) (waiting : D → List ℕ) (c p : ℕ)
      → IsSound k
      → IsUart b bus waiting
      → length (waiting d) < fuel
      → ops.get_active i.device ≡ (irq_uart0 b, d)
      → i.irq_table (irq_uart0 b) ≡ some uart_rx_irq
      → k.sched.current ≡ some c
      → k.sched.blocked_reader ≡ some p
      → state_of k.sched p ≡ blocked
      → p ≢ c
      → (i' : Intc D) × (interrupt bus fuel ops b i k
          ≡ some (i', switched (woken k (waiting d) c p) (c, p)))
  unfolding handle_irq
  key_wakes_eq b i k d waiting c p v chip h a e cur slot asleep ne =
      let t = scheduler_wake_reader k.sched in
      let k1 = record k { ring = push_all k.ring (waiting d); sched = t } in
      let (i', q) = uart_served b i k d waiting chip h a e in
      let (w, _) = wake_preempts k.sched c p v.sched cur slot asleep ne in
      (i', ap after_irq q ∙ ap (λ s. some (i', schedule_tail k1 s)) w)

  -- A key wakes the process that waits for it at once, on both boards: when the controller reports
  -- the UART's line, with uart_rx_irq registered for it, and p sleeps on input while c runs,
  -- handle_irq puts the bytes that wait in the chip into the ring, in their order and behind those
  -- that it holds, as many as there is room for, up to 127 in all, and switches from c to p. The fuel
  -- is above the number of bytes.
  pub key_wakes :
      (b : Board) (i : Intc D) (k : Kernel) (d : D) (waiting : D → List ℕ) (c p : ℕ)
      → IsSound k
      → IsUart b bus waiting
      → length (waiting d) < fuel
      → ops.get_active i.device ≡ (irq_uart0 b, d)
      → i.irq_table (irq_uart0 b) ≡ some uart_rx_irq
      → k.sched.current ≡ some c
      → k.sched.blocked_reader ≡ some p
      → state_of k.sched p ≡ blocked
      → p ≢ c
      → (i' : Intc D) × (k' : Kernel) × (interrupt bus fuel ops b i k
          ≡ some (i', switched k' (c, p)))
        × (contents k'.ring ≡ take capacity (contents k.ring ++ waiting d))
        × (k'.sched.current ≡ some p)
  key_wakes b i k d waiting c p v chip h a e cur slot asleep ne =
      let (i', q) = key_wakes_eq b i k d waiting c p v chip h a e cur slot asleep ne in
      (i', woken k (waiting d) c p, q, contents-push_all k.ring (waiting d) v.ring, refl)
