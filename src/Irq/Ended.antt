-- ===== src/Irq/Ended.antt =====
-- irq_dispatch of kernel/drivers/intc/intc_core.c comes to its end.
use refix_os.Common.{
  ℕ, List, length, ◌<◌, ◌≡◌, ◌≢◌, refl, ap, some, none, Option, Bool, true, false, ltb,
  if◌then◌else◌, arith,
}
use refix_os.Irq.Bus.{Bus}
use refix_os.Irq.Core.{
  IntcOps, Intc, IrqHandler, irq_dispatch, timer_irq, uart_rx_irq, max_irqs, run_entry,
  end_of_interrupt,
}
use refix_os.Irq.Drained.{pl011_rx_irq_lem, ns16550_rx_irq_lem}
use refix_os.Irq.Handlers.{run_handler, received, uart0_base}
use refix_os.Irq.Preempt.{IsUart}
use refix_os.Kernel.{Kernel}
use refix_os.Mmu.{Board, qemu, bbb}

-- A handler ends on a UART that behaves by its data sheet, with fuel above the bytes in it.
handler_ends :
    {D : Type 0} (b : Board) (bus : Bus D) (bytes : D → List ℕ) (fuel : ℕ) (fn : IrqHandler) (d : D)
    (k : Kernel)
    → IsUart b bus bytes
    → length (bytes d) < fuel
    → (r : D × Kernel) × (run_handler bus fuel b fn d k ≡ some r)
unfolding run_handler
handler_ends qemu bus bytes fuel timer_irq d k chip h = (_, refl)
handler_ends bbb bus bytes fuel timer_irq d k chip h = (_, refl)
handler_ends qemu bus bytes fuel uart_rx_irq d k chip h =
    let (d', q) = pl011_rx_irq_lem bus (uart0_base qemu) bytes chip fuel d k.ring k.sched h in
    (_, ap (received k) q)
handler_ends bbb bus bytes fuel uart_rx_irq d k chip h =
    let (d', q) = ns16550_rx_irq_lem bus (uart0_base bbb) bytes chip fuel d k.ring k.sched h in
    (_, ap (received k) q)

module _ {D : Type 0} (bus : Bus D) (ops : IntcOps D) (b : Board) where
  -- Whatever line the controller reports, a UART that behaves by its data sheet lets the handler of
  -- an interrupt come to its end.
  pub dispatch_ends :
      (bytes : D → List ℕ) (fuel : ℕ) (i : Intc D) (k : Kernel)
      → IsUart b bus bytes
      → length (bytes (ops.get_active i.device).1) < fuel
      → irq_dispatch ops (run_handler bus fuel b) i k ≢ none
  unfolding irq_dispatch
  dispatch_ends bytes fuel i k chip h =
      in_range (ltb (ops.get_active i.device).0 max_irqs) (i.irq_table (ops.get_active i.device).0)
    where
      in_range :
          (q : Bool) (o : Option IrqHandler)
          → end_of_interrupt ops (run_handler bus fuel b) i (ops.get_active i.device).0 (
              if q
              then run_entry ops (run_handler bus fuel b) o (ops.get_active i.device).1 k
              else some ((ops.get_active i.device).1, k))
            ≢ none
      in_range false o = λ e. ground (arith, e)
      in_range true none = λ e. ground (arith, e)
      in_range true (some fn) =
          let (r, q) = handler_ends b bus bytes fuel fn (ops.get_active i.device).1 k chip h in
          rw q (λ e. ground (arith, e))
