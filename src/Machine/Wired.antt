-- ===== src/Machine/Wired.antt =====
-- The interrupt lines that kmain of kernel/main.c wires.
use refix_os.Common.{ℕ, ◌≡◌, some, arith, refl, ◌<◌, ◌≢◌, lt→ltb}
use refix_os.Boot.Main.{bring_up}
use refix_os.Irq.Boards.{intc_ops, timer_init}
use refix_os.Irq.Bus.{Bus}
use refix_os.Irq.Core.{
  timer_irq, uart_rx_irq, Intc, IntcOps, irq_enable, irq_init, irq_register, max_irqs,
}
use refix_os.Irq.Handlers.{irq_timer, irq_uart0}
use refix_os.Mmu.{Board, qemu, bbb}

-- The two lines after `bring_up`.
module _ {D : Type 0} (ops : IntcOps D) (t u : ℕ) (i : Intc D) where
  abbrev pub wired : Intc D
  wired =
      irq_enable ops
        (irq_register ops (irq_enable ops (irq_register ops i t timer_irq) t) u uart_rx_irq) u

  wired_lines :
      t < max_irqs
      → u < max_irqs
      → t ≢ u
      → (wired.irq_table t ≡ some timer_irq) × (wired.irq_table u ≡ some uart_rx_irq)
  unfolding irq_enable irq_register
  wired_lines ht hu ne =
      rw (lt→ltb t max_irqs ht, lt→ltb u max_irqs hu) (ground arith, ground arith)

pub board_lines :
    {D : Type 0} (b : Board) (ops : IntcOps D) (i : Intc D)
    → ((wired ops (irq_timer b) (irq_uart0 b) i).irq_table (irq_timer b) ≡ some timer_irq)
      × ((wired ops (irq_timer b) (irq_uart0 b) i).irq_table (irq_uart0 b) ≡ some uart_rx_irq)
board_lines qemu ops i = wired_lines ops 36 44 i (omega arith) (omega arith) (omega arith)
board_lines bbb ops i = wired_lines ops 68 72 i (omega arith) (omega arith) (omega arith)

module _ {D : Type 0} (bus : Bus D) (fuel : ℕ) (b : Board) where
  pub bring_up_lem :
      (i i1 : Intc D) (d : D)
      → irq_init (intc_ops bus fuel b) i ≡ some i1
      → timer_init bus fuel b 10000 i1.device ≡ some d
      → bring_up bus fuel b i
        ≡ some (wired (intc_ops bus fuel b) (irq_timer b) (irq_uart0 b) (record i1 { device = d }))
  unfolding bring_up
  bring_up_lem i i1 d e e' = rw (e, bring_up) (rw e' refl)
