-- ===== src/Irq/Drained.antt =====
-- What a receive interrupt leaves: every byte that waited in the chip is in the ring.
use refix_os.Common.{
  ℕ, zero, suc, ◌+◌, ◌/◌, ◌%◌, ◌<◌, ◌≡◌, refl, List, [], ◌∷◌, length, some, arith, ◌∙◌,
}
use refix_os.Irq.Bus.{Bus}
use refix_os.Irq.Uart.{
  pl011_drain, pl011_rx_irq, pl011_fr, pl011_dr, ns16550_drain, ns16550_rx_irq, ns16550_lsr,
  ns16550_rhr,
}
use refix_os.Sched.{Sched, scheduler_wake_reader}
use refix_os.Uart.Ring.{Ring, uart_rx_push}

abbrev pub push_all : Ring → List ℕ → Ring
push_all r [] = r
push_all r (c ∷ cs) = push_all (uart_rx_push r c) cs

-- How a PL011 behaves by its data sheet: `waiting` are the bytes in its FIFO. A load of the flag
-- register leaves them and tells whether there are any; a load of the data register takes the first.
pub record IsPl011 {D : Type 0} (bus : Bus D) (base : ℕ) (waiting : D → List ℕ) : Type 0 where
  pub flag_keeps : (d : D) → waiting (bus.load d (base + pl011_fr)).1 ≡ waiting d
  pub flag_empty : (d : D) → waiting d ≡ [] → (bus.load d (base + pl011_fr)).0 / 16 % 2 ≡ 1
  pub flag_some :
      (d : D) (c : ℕ) (cs : List ℕ)
      → waiting d ≡ c ∷ cs
      → (bus.load d (base + pl011_fr)).0 / 16 % 2 ≡ 0
  pub takes :
      (d : D) (c : ℕ) (cs : List ℕ)
      → waiting d ≡ c ∷ cs
      → ((bus.load d (base + pl011_dr)).0 % 256 ≡ c)
        × (waiting (bus.load d (base + pl011_dr)).1 ≡ cs)

module _ {D : Type 0} (bus : Bus D) (base : ℕ) (waiting : D → List ℕ)
    (chip : IsPl011 bus base waiting) where
  pl011_drain_lem :
      (fuel : ℕ) (d : D) (r : Ring) (cs : List ℕ)
      → waiting d ≡ cs
      → length cs < fuel
      → (d' : D) × (pl011_drain bus base fuel d r ≡ some (d', push_all r cs)) × (waiting d' ≡ [])
  unfolding pl011_drain
  pl011_drain_lem zero d r cs w h = absurd (omega arith)
  pl011_drain_lem (suc fuel) d r [] w h = rw (chip.flag_empty d w) (_, refl, chip.flag_keeps d ∙ w)
  pl011_drain_lem (suc fuel) d r (c ∷ cs) w h =
      let w1 = chip.flag_keeps d ∙ w in
      rw (chip.flag_some d c cs w, (chip.takes _ c cs w1).0)
        (pl011_drain_lem fuel _ (uart_rx_push r c) cs (chip.takes _ c cs w1).1 (omega arith))

  -- With fuel for a round more than the bytes that wait in the chip, the PL011's interrupt handler
  -- ends, has put them into the ring in their order and wakes the reader.
  pub pl011_rx_irq_lem :
      (fuel : ℕ) (d : D) (r : Ring) (s : Sched)
      → length (waiting d) < fuel
      → (d' : D) × (pl011_rx_irq bus base fuel d r s
          ≡ some (d', push_all r (waiting d), scheduler_wake_reader s))
  unfolding pl011_rx_irq
  pl011_rx_irq_lem fuel d r s h =
      let (d', e, w) = pl011_drain_lem fuel d r (waiting d) refl h in rw (e, pl011_rx_irq) (_, refl)

-- The same of the NS16550, whose flag is set when there are bytes.
pub record IsNs16550 {D : Type 0} (bus : Bus D) (base : ℕ) (waiting : D → List ℕ) : Type 0 where
  pub flag_keeps : (d : D) → waiting (bus.load d (base + ns16550_lsr)).1 ≡ waiting d
  pub flag_empty : (d : D) → waiting d ≡ [] → (bus.load d (base + ns16550_lsr)).0 % 2 ≡ 0
  pub flag_some :
      (d : D) (c : ℕ) (cs : List ℕ)
      → waiting d ≡ c ∷ cs
      → (bus.load d (base + ns16550_lsr)).0 % 2 ≡ 1
  pub takes :
      (d : D) (c : ℕ) (cs : List ℕ)
      → waiting d ≡ c ∷ cs
      → ((bus.load d (base + ns16550_rhr)).0 % 256 ≡ c)
        × (waiting (bus.load d (base + ns16550_rhr)).1 ≡ cs)

module _ {D : Type 0} (bus : Bus D) (base : ℕ) (waiting : D → List ℕ)
    (chip : IsNs16550 bus base waiting) where
  ns16550_drain_lem :
      (fuel : ℕ) (d : D) (r : Ring) (cs : List ℕ)
      → waiting d ≡ cs
      → length cs < fuel
      → (d' : D) × (ns16550_drain bus base fuel d r ≡ some (d', push_all r cs)) × (waiting d' ≡ [])
  unfolding ns16550_drain
  ns16550_drain_lem zero d r cs w h = absurd (omega arith)
  ns16550_drain_lem (suc fuel) d r [] w h =
      rw (chip.flag_empty d w) (_, refl, chip.flag_keeps d ∙ w)
  ns16550_drain_lem (suc fuel) d r (c ∷ cs) w h =
      let w1 = chip.flag_keeps d ∙ w in
      rw (chip.flag_some d c cs w, (chip.takes _ c cs w1).0)
        (ns16550_drain_lem fuel _ (uart_rx_push r c) cs (chip.takes _ c cs w1).1 (omega arith))

  -- With fuel for a round more than the bytes that wait in the chip, the NS16550's interrupt handler
  -- ends, has put them into the ring in their order and wakes the reader.
  pub ns16550_rx_irq_lem :
      (fuel : ℕ) (d : D) (r : Ring) (s : Sched)
      → length (waiting d) < fuel
      → (d' : D) × (ns16550_rx_irq bus base fuel d r s
          ≡ some (d', push_all r (waiting d), scheduler_wake_reader s))
  unfolding ns16550_rx_irq
  ns16550_rx_irq_lem fuel d r s h =
      let (d', e, w) = ns16550_drain_lem fuel d r (waiting d) refl h in
      rw (e, ns16550_rx_irq) (_, refl)
