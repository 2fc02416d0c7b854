-- ===== src/Irq/Handlers.antt =====
-- The handlers that kernel/main.c registers, `timer_irq` and `uart_rx_irq`, as they run on each board:
-- the calls through the device records of kernel/platform/*/board.c to the chip drivers.
use refix_os.Common.{ℕ, Option, some, none}
use refix_os.Irq.Bus.{Bus}
use refix_os.Irq.Core.{IrqHandler, timer_irq, uart_rx_irq}
use refix_os.Irq.Timers.{sp804_irq, dmtimer_irq}
use refix_os.Irq.Uart.{pl011_rx_irq, ns16550_rx_irq}
use refix_os.Kernel.{Kernel}
use refix_os.Mmu.{Board, qemu, bbb}
use refix_os.Sched.{Sched}
use refix_os.Uart.Ring.{Ring}

abbrev pub uart0_base : Board → ℕ
uart0_base qemu = 0x10009000
uart0_base bbb = 0x44E09000

-- TIMER0_BASE of the one board, TIMER2_BASE of the other.
abbrev pub timer_base : Board → ℕ
timer_base qemu = 0x10011000
timer_base bbb = 0x48040000

abbrev pub irq_timer : Board → ℕ
irq_timer qemu = 36
irq_timer bbb = 68

abbrev pub irq_uart0 : Board → ℕ
irq_uart0 qemu = 44
irq_uart0 bbb = 72

-- The ring and the scheduler are what the receive interrupt changes of the kernel.
abbrev pub received {ℓ} : {D : Type ℓ} → Kernel → Option (D × Ring × Sched) → Option (D × Kernel)
received k none = none
received k (some (d, r, s)) = some (d, record k { ring = r; sched = s })

module _ {D : Type 0} (bus : Bus D) (fuel : ℕ) where
  unfoldable pub run_handler : Board → IrqHandler → D → Kernel → Option (D × Kernel)
  run_handler qemu timer_irq d k = some (sp804_irq bus (timer_base qemu) d k)
  run_handler bbb timer_irq d k = some (dmtimer_irq bus (timer_base bbb) d k)
  run_handler qemu uart_rx_irq d k =
      received k (pl011_rx_irq bus (uart0_base qemu) fuel d k.ring k.sched)
  run_handler bbb uart_rx_irq d k =
      received k (ns16550_rx_irq bus (uart0_base bbb) fuel d k.ring k.sched)
