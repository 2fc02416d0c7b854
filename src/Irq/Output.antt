-- ===== src/Irq/Output.antt =====
-- The transmit side and the set-up of the UART drivers, kernel/drivers/uart/pl011.c and ns16550.c. The
-- loops that wait for room in the transmitter run on fuel. uart_putc and uart_puts of uart_core.c over
-- these drivers are `console_putc` and `console_puts`.
use refix_os.Common.{
  ℕ, zero, suc, ◌+◌, ◌/◌, ◌%◌, List, [], ◌∷◌, Option, some, none, ◌==◌, if◌then◌else◌,
}
use refix_os.Irq.Bus.{Bus}
use refix_os.Mmu.{Board, qemu, bbb}
use refix_os.Irq.Handlers.{uart0_base}

abbrev pub and_then {ℓ} : {A B : Type ℓ} → Option A → (A → Option B) → Option B
and_then none f = none
and_then (some a) f = f a

module _ {D : Type 0} (bus : Bus D) where
  -- IBRD is 0x24, FBRD 0x28, LCR_H 0x2C, CR 0x30 and IMSC 0x38; WLEN8 is 3 at bit 5, FEN bit 4, RXE
  -- bit 9, TXE bit 8 and UARTEN bit 0.
  unfoldable pub pl011_init : ℕ → D → D
  pl011_init base d =
      let d1 = bus.store d (base + 0x30) 0 in
      let d2 = bus.store d1 (base + 0x24) 13 in
      let d3 = bus.store d2 (base + 0x28) 1 in
      let d4 = bus.store d3 (base + 0x2C) (96 + 16) in
      let d5 = bus.store d4 (base + 0x38) (16 + 64) in bus.store d5 (base + 0x30) (1 + 256 + 512)

  -- `while (FR & TXFF)`: bit 5.
  unfoldable pub pl011_putc : ℕ → ℕ → D → ℕ → Option D
  pl011_putc base zero d c = none
  pl011_putc base (suc fuel) d c =
      let (flags, d1) = bus.load d (base + 0x18) in
      let rest = pl011_putc base fuel d1 c in
      if flags / 32 % 2 == 1 then rest else some (bus.store d1 (base + 0x00) c)

  -- MDR1 is 0xA4, IER and DLH 0x04, FCR 0x08, LCR 0x0C and DLL 0x00.
  unfoldable pub ns16550_init : ℕ → D → D
  ns16550_init base d =
      let d1 = bus.store d (base + 0xA4) 0x07 in
      let d2 = bus.store d1 (base + 0x04) 0 in
      let d3 = bus.store d2 (base + 0x08) (1 + 2 + 4 + 0) in
      let d4 = bus.store d3 (base + 0x0C) (128 + 0x03) in
      let d5 = bus.store d4 (base + 0x00) (26 % 256) in
      let d6 = bus.store d5 (base + 0x04) 0 in
      let d7 = bus.store d6 (base + 0x0C) 0x03 in
      let d8 = bus.store d7 (base + 0x04) 1 in bus.store d8 (base + 0xA4) 0x00

  -- `while (!(LSR & THRE))`: bit 5.
  unfoldable pub ns16550_putc : ℕ → ℕ → D → ℕ → Option D
  ns16550_putc base zero d c = none
  ns16550_putc base (suc fuel) d c =
      let (flags, d1) = bus.load d (base + 0x14) in
      let rest = ns16550_putc base fuel d1 c in
      if flags / 32 % 2 == 1 then some (bus.store d1 (base + 0x00) c) else rest

-- uart_putc and uart_puts of kernel/drivers/uart/uart_core.c, over the driver's `putc`.
unfoldable pub console_putc : {D : Type 0} → (D → ℕ → Option D) → D → ℕ → Option D
console_putc putc d c = if c == 10 then and_then (putc d 13) (λ d'. putc d' c) else putc d c

unfoldable pub console_puts : {D : Type 0} → (D → ℕ → Option D) → D → List ℕ → Option D
unfolding console_putc
console_puts putc d [] = some d
console_puts putc d (c ∷ s) = and_then (console_putc putc d c) (λ d'. console_puts putc d' s)

-- The calls of `console->ops->putc` that print a sequence of bytes.
unfoldable pub put_all : {D : Type 0} → (D → ℕ → Option D) → D → List ℕ → Option D
put_all putc d [] = some d
put_all putc d (c ∷ cs) = and_then (putc d c) (λ d'. put_all putc d' cs)

-- The driver that the board's console uses.
abbrev pub putc_of : {D : Type 0} → Board → Bus D → ℕ → D → ℕ → Option D
putc_of qemu bus fuel d c = pl011_putc bus (uart0_base qemu) fuel d c
putc_of bbb bus fuel d c = ns16550_putc bus (uart0_base bbb) fuel d c
