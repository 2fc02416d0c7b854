-- ===== src/Irq/Gic.antt =====
-- kernel/drivers/intc/gicv1.c: the interrupt controller of the QEMU board.
use refix_os.Common.{
  ℕ, zero, suc, ◌+◌, ◌-◌, ◌*◌, ◌/◌, ◌%◌, ◌^◌, some, min, leb, if◌then◌else◌, u32_mod,
}
use refix_os.Irq.Bus.{Bus}
use refix_os.Irq.Core.{IntcOps, max_irqs}

abbrev pub gic_spurious : ℕ
gic_spurious = 1023

-- Register offsets: of the distributor, and of the processor's interface.
abbrev pub gicd_isenabler : ℕ → ℕ
gicd_isenabler n = 0x100 + n * 4

abbrev pub gicd_icenabler : ℕ → ℕ
gicd_icenabler n = 0x180 + n * 4

abbrev pub gicc_iar : ℕ
gicc_iar = 0x00C

abbrev pub gicc_eoir : ℕ
gicc_eoir = 0x010

-- The two addresses of the device record.
module _ {D : Type 0} (bus : Bus D) (dist cpu : ℕ) where
  -- The loop that disables the lines, `left` words from line 32 * w on.
  unfoldable pub disable_words : ℕ → ℕ → D → D
  disable_words zero w d = d
  disable_words (suc left) w d =
      disable_words left (w + 1) (bus.store d (dist + gicd_icenabler w) (u32_mod - 1))

  -- The loop that sets priority and target, for `left` lines from i on.
  unfoldable pub set_lines : ℕ → ℕ → D → D
  set_lines zero i d = d
  set_lines (suc left) i d =
      set_lines left (i + 1)
        (bus.store8 (bus.store8 d (dist + (0x400 + i)) 0xA0) (dist + (0x800 + i)) 0x01)

  unfoldable pub gicv1_init : D → D
  gicv1_init d =
      let d1 = bus.store d (dist + 0x000) 0 in
      let (typer, d2) = bus.load d1 (dist + 0x004) in
      let lines = min ((typer % 32 + 1) * 32) max_irqs in
      let d3 = disable_words (lines / 32 - 1) 1 d2 in
      let d4 = set_lines (lines - 32) 32 d3 in
      let d5 = bus.store d4 (dist + 0x000) 1 in
      let d6 = bus.store d5 (cpu + 0x004) 0xF0 in
      let d7 = bus.store d6 (cpu + 0x008) 0x00 in bus.store d7 (cpu + 0x000) 1

  unfoldable pub gicv1_enable_line : D → ℕ → D
  gicv1_enable_line d irq = bus.store d (dist + gicd_isenabler (irq / 32)) (2 ^ (irq % 32))

  unfoldable pub gicv1_disable_line : D → ℕ → D
  gicv1_disable_line d irq = bus.store d (dist + gicd_icenabler (irq / 32)) (2 ^ (irq % 32))

  unfoldable pub gicv1_get_active : D → ℕ × D
  gicv1_get_active d =
      let (iar, d1) = bus.load d (cpu + gicc_iar) in
      (if leb gic_spurious (iar % 1024) then max_irqs else iar % 1024, d1)

  unfoldable pub gicv1_eoi : D → ℕ → D
  gicv1_eoi d irq = bus.store d (cpu + gicc_eoir) (if leb max_irqs irq then gic_spurious else irq)

  unfoldable pub gicv1_ops : IntcOps D
  gicv1_ops = record {
    init = λ d. some (gicv1_init d);
    enable_line = gicv1_enable_line;
    disable_line = gicv1_disable_line;
    get_active = gicv1_get_active;
    eoi = gicv1_eoi;
  }
