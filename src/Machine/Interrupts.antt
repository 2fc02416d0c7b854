-- ===== src/Machine/Interrupts.antt =====
-- What the interrupt handlers do to the kernel: no memory is touched.
use refix_os.Uart.Ring.Refine
use refix_os.Kernel.{Kernel}
use refix_os.Irq.Bus.{Bus}
use refix_os.Common.{
  Option, some, ◌≡◌, ℕ, none, refl, suc, ◌+◌, if_both, ◌/◌, ◌%◌, ◌==◌, zero, if◌then◌else◌, ltb,
}
use refix_os.Irq.Timers.{tick, callback, sp804_irq, dmtimer_irq}
use refix_os.Kernel.Sound.{IsSound}
use refix_os.Irq.Uart.{
  pl011_drain, ns16550_rx_irq, ns16550_drain, pl011_rx_irq, ns16550_lsr, pl011_fr, ns16550_rhr,
  pl011_dr,
}
use refix_os.Timer.{timer_tick, TimerHandler}
use refix_os.Uart.Ring.{Ring, uart_rx_push}
use refix_os.Sched.History.{step, Follows, Follows-refl, Follows-step, Op}
use refix_os.Sched.Invariant.{scheduler_tick-IsValid, wake_reader-IsValid}
use refix_os.Sched.{scheduler_wake_reader, Sched}
use refix_os.Irq.Core.{IntcOps, Intc, IrqHandler, irq_dispatch, timer_irq, uart_rx_irq, max_irqs}
use refix_os.Irq.Handlers.{run_handler, received, uart0_base}
use refix_os.Mmu.{Board, qemu, bbb}
use refix_os.Irq.Dispatched.{served, run_or}
use refix_os.Uart.Ring.Refine.{push-IsValid}

-- The kernel is sound, with the memory of k0, and its scheduler has come about by the scheduler's operations.
pub record IsQuiet (k0 k : Kernel) : Type 0 where
  pub sound : IsSound k
  pub memory : k.mem ≡ k0.mem
  pub trace : Follows k0.sched k.sched

-- If there is a result, its second part is quiet.
abbrev pub IsQuietResult {ℓ} : {D : Type ℓ} → Kernel → Option (D × Kernel) → Type 0
IsQuietResult k0 none = Unit
IsQuietResult k0 (some (d, k)) = IsQuiet k0 k

abbrev HasRing {ℓ} : {D : Type ℓ} → Option (D × Ring) → Type 0
HasRing none = Unit
HasRing (some (d, r)) = Refine.IsValid r

callback-IsQuiet :
    (o : Option TimerHandler) (k0 k : Kernel)
    → IsSound k
    → k.mem ≡ k0.mem
    → k.sched ≡ k0.sched
    → IsQuiet k0 (callback o k)
unfolding step
callback-IsQuiet none k0 k v m e = record {
  sound = v;
  memory = m;
  trace = rw e (Follows-refl k0.sched);
}
callback-IsQuiet (some TimerHandler.on_scheduler_tick) k0 k v m e = record {
  sound = record { sched = scheduler_tick-IsValid v.sched; ring = v.ring };
  memory = m;
  trace = rw e (Follows-step k0.sched Op.tick);
}

tick-IsQuiet : (k : Kernel) → IsSound k → IsQuiet k (tick k)
unfolding tick timer_tick
tick-IsQuiet k v =
    callback-IsQuiet k.timer.user_handler k (record k { timer = (timer_tick k.timer).0 })
      (record { sched = v.sched; ring = v.ring }) refl refl

wake-Follows : (s : Sched) → Follows s (scheduler_wake_reader s)
unfolding step
wake-Follows s = Follows-step s Op.wake

-- The end of a receive interrupt, with a ring that is valid.
drained-IsQuiet :
    (k : Kernel) (r : Ring)
    → IsSound k
    → Refine.IsValid r
    → IsQuiet k (record k { ring = r; sched = scheduler_wake_reader k.sched })
drained-IsQuiet k r v w = record {
  sound = record { sched = wake_reader-IsValid k.sched v.sched; ring = w };
  memory = refl;
  trace = wake-Follows k.sched;
}

module _ {D : Type 0} (bus : Bus D) where
  pl011_drain-HasRing :
      (fuel base : ℕ) (d : D) (r : Ring)
      → Refine.IsValid r
      → HasRing (pl011_drain bus base fuel d r)
  unfolding pl011_drain
  pl011_drain-HasRing zero base d r v = tt
  pl011_drain-HasRing (suc fuel) base d r v =
      let (flags, d1) = bus.load d (base + pl011_fr) in
      let (c, d2) = bus.load d1 (base + pl011_dr) in
      if_both HasRing (flags / 16 % 2 == 1) (some (d1, r))
        (pl011_drain bus base fuel d2 (uart_rx_push r (c % 256))) v
        (pl011_drain-HasRing fuel base d2 (uart_rx_push r (c % 256)) (push-IsValid r (c % 256) v))

  ns16550_drain-HasRing :
      (fuel base : ℕ) (d : D) (r : Ring)
      → Refine.IsValid r
      → HasRing (ns16550_drain bus base fuel d r)
  unfolding ns16550_drain
  ns16550_drain-HasRing zero base d r v = tt
  ns16550_drain-HasRing (suc fuel) base d r v =
      let (flags, d1) = bus.load d (base + ns16550_lsr) in
      let (c, d2) = bus.load d1 (base + ns16550_rhr) in
      if_both HasRing (flags % 2 == 1) (ns16550_drain bus base fuel d2 (uart_rx_push r (c % 256)))
        (some (d1, r))
        (ns16550_drain-HasRing fuel base d2 (uart_rx_push r (c % 256)) (push-IsValid r (c % 256) v))
        v

  pl011_rx_irq-IsQuiet :
      (fuel base : ℕ) (d : D) (k : Kernel)
      → IsSound k
      → IsQuietResult k (received k (pl011_rx_irq bus base fuel d k.ring k.sched))
  unfolding pl011_rx_irq
  pl011_rx_irq-IsQuiet fuel base d k v =
      cases (pl011_drain bus base fuel d k.ring) refl
        (pl011_drain-HasRing fuel base d k.ring v.ring)
    where
      cases :
          (o : Option (D × Ring))
          → pl011_drain bus base fuel d k.ring ≡ o
          → HasRing o
          → IsQuietResult k (received k (pl011_rx_irq bus base fuel d k.ring k.sched))
      cases none e h = rw (e, pl011_rx_irq) tt
      cases (some (d', r)) e h = rw (e, pl011_rx_irq) (drained-IsQuiet k r v h)

  ns16550_rx_irq-IsQuiet :
      (fuel base : ℕ) (d : D) (k : Kernel)
      → IsSound k
      → IsQuietResult k (received k (ns16550_rx_irq bus base fuel d k.ring k.sched))
  unfolding ns16550_rx_irq
  ns16550_rx_irq-IsQuiet fuel base d k v =
      cases (ns16550_drain bus base fuel d k.ring) refl
        (ns16550_drain-HasRing fuel base d k.ring v.ring)
    where
      cases :
          (o : Option (D × Ring))
          → ns16550_drain bus base fuel d k.ring ≡ o
          → HasRing o
          → IsQuietResult k (received k (ns16550_rx_irq bus base fuel d k.ring k.sched))
      cases none e h = rw (e, ns16550_rx_irq) tt
      cases (some (d', r)) e h = rw (e, ns16550_rx_irq) (drained-IsQuiet k r v h)

  run_handler-IsQuiet :
      (fuel : ℕ) (b : Board) (fn : IrqHandler) (d : D) (k : Kernel)
      → IsSound k
      → IsQuietResult k (run_handler bus fuel b fn d k)
  unfolding run_handler sp804_irq dmtimer_irq
  run_handler-IsQuiet fuel qemu timer_irq d k v = tick-IsQuiet k v
  run_handler-IsQuiet fuel bbb timer_irq d k v = tick-IsQuiet k v
  run_handler-IsQuiet fuel qemu uart_rx_irq d k v =
      pl011_rx_irq-IsQuiet fuel (uart0_base qemu) d k v
  run_handler-IsQuiet fuel bbb uart_rx_irq d k v =
      ns16550_rx_irq-IsQuiet fuel (uart0_base bbb) d k v

  module _ (ops : IntcOps D) (fuel : ℕ) (b : Board) where
    ended-IsQuiet :
        (k : Kernel) (i : Intc D) (n : ℕ) (o : Option (D × Kernel))
        → IsQuietResult k o
        → IsQuietResult k (served ops (run_handler bus fuel b) i n o)
    ended-IsQuiet k i n none q = tt
    ended-IsQuiet k i n (some (d, k')) q = q

    entry-IsQuiet :
        (o : Option IrqHandler) (d : D) (k : Kernel)
        → IsSound k
        → IsQuietResult k (run_or ops (run_handler bus fuel b) o d k)
    entry-IsQuiet none d k v = record { sound = v; memory = refl; trace = Follows-refl k.sched }
    entry-IsQuiet (some fn) d k v = run_handler-IsQuiet fuel b fn d k v

    -- Whatever the chip reports and whatever is registered.
    pub irq_dispatch-IsQuiet :
        (i : Intc D) (k : Kernel)
        → IsSound k
        → IsQuietResult k (irq_dispatch ops (run_handler bus fuel b) i k)
    unfolding irq_dispatch
    irq_dispatch-IsQuiet i k v =
        let (n, d) = ops.get_active i.device in
        ended-IsQuiet k i n
          (if ltb n max_irqs
            then run_or ops (run_handler bus fuel b) (i.irq_table n) d k
            else some (d, k))
          (if_both (IsQuietResult k) (ltb n max_irqs)
            (run_or ops (run_handler bus fuel b) (i.irq_table n) d k) (some (d, k))
            (entry-IsQuiet (i.irq_table n) d k v) (entry-IsQuiet none d k v))
