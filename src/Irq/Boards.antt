-- ===== src/Irq/Boards.antt =====
-- The wiring of the two boards, kernel/platform/*/board.c, and the calls of the cores that go through
-- the device records: uart_init, timer_init and the controller's operations.
use refix_os.Common.{ℕ, Option, ◌/◌, some, ◌+◌, none, ◌^◌, suc, ◌%◌, if◌then◌else◌, ◌==◌, zero}
use refix_os.Mmu.{Board, qemu, bbb}
use refix_os.Irq.Bus.{Bus}
use refix_os.Irq.Output.{and_then, pl011_init, ns16550_init}
use refix_os.Irq.Core.{IntcOps}
use refix_os.Irq.Gic.{gicv1_ops}
use refix_os.Irq.Handlers.{uart0_base, timer_base}
use refix_os.Irq.Timers.{sp804_init, dmtimer_init}
use refix_os.Irq.Am335x.{am335x_intc_ops}

abbrev pub timer_clk_hz : Board → ℕ
timer_clk_hz qemu = 1000000
timer_clk_hz bbb = 24000000

abbrev pub gic_cpu_base : ℕ
gic_cpu_base = 0x1E000000

abbrev pub gic_dist_base : ℕ
gic_dist_base = 0x1E001000

abbrev pub intc_base : ℕ
intc_base = 0x48200000

abbrev pub cm_per_base : ℕ
cm_per_base = 0x44E00000

abbrev pub cm_dpll_base : ℕ
cm_dpll_base = 0x44E00500

-- The field IDLEST of a register: bits 16 and 17.
abbrev pub idlest : ℕ → ℕ
idlest v = v / 2 ^ 16 % 4

module _ {D : Type 0} (bus : Bus D) (fuel : ℕ) where
  -- `while (IDLEST of the register != state)`.
  unfoldable pub poll_idle : ℕ → ℕ → ℕ → D → Option D
  poll_idle address state zero d = none
  poll_idle address state (suc left) d =
      let (v, d1) = bus.load d address in
      let rest = poll_idle address state left d1 in if idlest v == state then some d1 else rest

  -- TIMER2_CLKCTRL is at 0x080, L4LS_CLKSTCTRL at 0x000, CLKSEL_TIMER2_CLK at 0x08.
  unfoldable pub clock_enable_timer2 : D → Option D
  clock_enable_timer2 d =
      and_then (poll_idle (cm_per_base + 0x080) 3 fuel (bus.store d (cm_per_base + 0x080) 0)) (λ d1.
        let d2 = bus.store d1 (cm_dpll_base + 0x08) 1 in
        let d3 = bus.store d2 (cm_per_base + 0x000) 2 in
        poll_idle (cm_per_base + 0x080) 0 fuel (bus.store d3 (cm_per_base + 0x080) 2))

  -- What platform_init_devices does to the devices. The three records that it binds are the
  -- functions of the board below.
  unfoldable pub platform_init_devices : Board → D → Option D
  platform_init_devices qemu d = some d
  platform_init_devices bbb d = clock_enable_timer2 d

  abbrev pub uart_init : Board → D → D
  uart_init qemu d = pl011_init bus (uart0_base qemu) d
  uart_init bbb d = ns16550_init bus (uart0_base bbb) d

  abbrev pub timer_init : Board → ℕ → D → Option D
  timer_init qemu period_us d =
      some (sp804_init bus (timer_base qemu) (timer_clk_hz qemu) period_us d)
  timer_init bbb period_us d = dmtimer_init bus fuel (timer_base bbb) (timer_clk_hz bbb) period_us d

  abbrev pub intc_ops : Board → IntcOps D
  intc_ops qemu = gicv1_ops bus gic_dist_base gic_cpu_base
  intc_ops bbb = am335x_intc_ops bus fuel intc_base
