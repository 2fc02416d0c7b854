-- ===== src/Machine/Served.antt =====
-- The interrupts as entries of the scheduler.
use refix_os.Common.{ℕ, ◌≡◌, Option, some, none, refl, if◌then◌else◌, ltb, if_both}
use refix_os.Irq.Timers.{tick, sp804_irq, dmtimer_irq}
use refix_os.Irq.Bus.{Bus}
use refix_os.Kernel.{Kernel}
use refix_os.Timer.{timer_tick, on_scheduler_tick}
use refix_os.Irq.Uart.{pl011_rx_irq, pl011_drain, ns16550_rx_irq, ns16550_drain}
use refix_os.Machine.Entered.{Completes}
use refix_os.Uart.Ring.{Ring}
use refix_os.Sched.Turns.{at_tick, at_input, calls}
use refix_os.Irq.Handlers.{received, run_handler, uart0_base}
use refix_os.Irq.Core.{IntcOps, IrqHandler, Intc, irq_dispatch, max_irqs, timer_irq, uart_rx_irq}
use refix_os.Mmu.{Board, qemu, bbb}
use refix_os.Irq.Dispatched.{served, run_or}

-- If there is a result, schedule completes an entry with it.
abbrev pub CompletesResult {ℓ} : {D : Type ℓ} → Kernel → Option (D × Kernel) → Type 0
CompletesResult k0 none = Unit
CompletesResult k0 (some (d, k)) = Completes k0 k

-- The handler that kernel/main.c gives to the timer is in place.
abbrev pub HasTicks : Kernel → Type 0
HasTicks k = k.timer.user_handler ≡ some on_scheduler_tick

tick-Completes : (k : Kernel) → HasTicks k → Completes k (tick k)
unfolding tick timer_tick
tick-Completes k h = rw h (at_tick, refl, refl)

module _ {D : Type 0} (bus : Bus D) where
  pl011_rx_irq-Completes :
      (fuel base : ℕ) (d : D) (k : Kernel)
      → CompletesResult k (received k (pl011_rx_irq bus base fuel d k.ring k.sched))
  unfolding pl011_rx_irq
  pl011_rx_irq-Completes fuel base d k = cases (pl011_drain bus base fuel d k.ring) refl
    where
      cases :
          (o : Option (D × Ring))
          → pl011_drain bus base fuel d k.ring ≡ o
          → CompletesResult k (received k (pl011_rx_irq bus base fuel d k.ring k.sched))
      cases none e = rw (e, pl011_rx_irq) tt
      cases (some (d', r)) e = rw (e, pl011_rx_irq) (at_input, refl, refl)

  ns16550_rx_irq-Completes :
      (fuel base : ℕ) (d : D) (k : Kernel)
      → CompletesResult k (received k (ns16550_rx_irq bus base fuel d k.ring k.sched))
  unfolding ns16550_rx_irq
  ns16550_rx_irq-Completes fuel base d k = cases (ns16550_drain bus base fuel d k.ring) refl
    where
      cases :
          (o : Option (D × Ring))
          → ns16550_drain bus base fuel d k.ring ≡ o
          → CompletesResult k (received k (ns16550_rx_irq bus base fuel d k.ring k.sched))
      cases none e = rw (e, ns16550_rx_irq) tt
      cases (some (d', r)) e = rw (e, ns16550_rx_irq) (at_input, refl, refl)

  run_handler-Completes :
      (fuel : ℕ) (b : Board) (fn : IrqHandler) (d : D) (k : Kernel)
      → HasTicks k
      → CompletesResult k (run_handler bus fuel b fn d k)
  unfolding run_handler sp804_irq dmtimer_irq
  run_handler-Completes fuel qemu timer_irq d k h = tick-Completes k h
  run_handler-Completes fuel bbb timer_irq d k h = tick-Completes k h
  run_handler-Completes fuel qemu uart_rx_irq d k h =
      pl011_rx_irq-Completes fuel (uart0_base qemu) d k
  run_handler-Completes fuel bbb uart_rx_irq d k h =
      ns16550_rx_irq-Completes fuel (uart0_base bbb) d k

  module _ (ops : IntcOps D) (fuel : ℕ) (b : Board) where
    ended-Completes :
        (k : Kernel) (i : Intc D) (n : ℕ) (o : Option (D × Kernel))
        → CompletesResult k o
        → CompletesResult k (served ops (run_handler bus fuel b) i n o)
    ended-Completes k i n none q = tt
    ended-Completes k i n (some (d, k')) q = q

    entry-Completes :
        (o : Option IrqHandler) (d : D) (k : Kernel)
        → HasTicks k
        → CompletesResult k (run_or ops (run_handler bus fuel b) o d k)
    entry-Completes none d k h = (calls, refl, refl)
    entry-Completes (some fn) d k h = run_handler-Completes fuel b fn d k h

    -- Whatever the chip reports and whatever is registered.
    pub irq_dispatch-Completes :
        (i : Intc D) (k : Kernel)
        → HasTicks k
        → CompletesResult k (irq_dispatch ops (run_handler bus fuel b) i k)
    unfolding irq_dispatch
    irq_dispatch-Completes i k h =
        let (n, d) = ops.get_active i.device in
        ended-Completes k i n
          (if ltb n max_irqs
            then run_or ops (run_handler bus fuel b) (i.irq_table n) d k
            else some (d, k))
          (if_both (CompletesResult k) (ltb n max_irqs)
            (run_or ops (run_handler bus fuel b) (i.irq_table n) d k) (some (d, k))
            (entry-Completes (i.irq_table n) d k h) (entry-Completes none d k h))
