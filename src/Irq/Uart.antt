-- ===== src/Irq/Uart.antt =====
-- The receive side of the UART drivers, kernel/drivers/uart/pl011.c and ns16550.c. The loops that
-- drain the chip run on fuel, and are `none` when it is used up.
use refix_os.Common.{ℕ, zero, suc, ◌+◌, ◌/◌, ◌%◌, Option, some, none, ◌==◌, if◌then◌else◌}
use refix_os.Irq.Bus.{Bus}
use refix_os.Sched.{Sched, scheduler_wake_reader}
use refix_os.Uart.Ring.{Ring, uart_rx_push}

abbrev pub pl011_dr : ℕ
pl011_dr = 0

abbrev pub pl011_fr : ℕ
pl011_fr = 0x18

abbrev pub pl011_icr : ℕ
pl011_icr = 0x44

abbrev pub ns16550_rhr : ℕ
ns16550_rhr = 0

abbrev pub ns16550_lsr : ℕ
ns16550_lsr = 0x14

module _ {D : Type 0} (bus : Bus D) where
  -- `while (!(FR & RXFE))`: RXFE is bit 4.
  unfoldable pub pl011_drain : ℕ → ℕ → D → Ring → Option (D × Ring)
  pl011_drain base zero d r = none
  pl011_drain base (suc fuel) d r =
      let (flags, d1) = bus.load d (base + pl011_fr) in
      let (received, d2) = bus.load d1 (base + pl011_dr) in
      let rest = pl011_drain base fuel d2 (uart_rx_push r (received % 256)) in
      if flags / 16 % 2 == 1 then some (d1, r) else rest

  -- INT_RX and INT_RT are bits 4 and 6.
  unfoldable pub pl011_rx_irq : ℕ → ℕ → D → Ring → Sched → Option (D × Ring × Sched)
  pl011_rx_irq base fuel d r s = elim (pl011_drain base fuel d r) [
    | none ↦ none
    | some (d', r') ↦ some (bus.store d' (base + pl011_icr) (16 + 64), r', scheduler_wake_reader s)
  ]

  -- `while (LSR & DR)`: DR is bit 0.
  unfoldable pub ns16550_drain : ℕ → ℕ → D → Ring → Option (D × Ring)
  ns16550_drain base zero d r = none
  ns16550_drain base (suc fuel) d r =
      let (flags, d1) = bus.load d (base + ns16550_lsr) in
      let (received, d2) = bus.load d1 (base + ns16550_rhr) in
      let rest = ns16550_drain base fuel d2 (uart_rx_push r (received % 256)) in
      if flags % 2 == 1 then rest else some (d1, r)

  unfoldable pub ns16550_rx_irq : ℕ → ℕ → D → Ring → Sched → Option (D × Ring × Sched)
  ns16550_rx_irq base fuel d r s = elim (ns16550_drain base fuel d r) [
    | none ↦ none
    | some (d', r') ↦ some (d', r', scheduler_wake_reader s)
  ]
