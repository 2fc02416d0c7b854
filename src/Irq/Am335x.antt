-- ===== src/Irq/Am335x.antt =====
-- kernel/drivers/intc/am335x_intc.c: the interrupt controller of the BeagleBone Black.
use refix_os.Common.{
  ℕ, zero, suc, ◌+◌, ◌*◌, ◌-◌, ◌/◌, ◌%◌, ◌^◌, Option, some, none, ◌==◌, if◌then◌else◌, u32_mod,
}
use refix_os.Irq.Bus.{Bus}
use refix_os.Irq.Core.{IntcOps, max_irqs}

abbrev pub intc_mir_clear : ℕ → ℕ
intc_mir_clear n = 0x088 + n * 0x20

abbrev pub intc_mir_set : ℕ → ℕ
intc_mir_set n = 0x08C + n * 0x20

abbrev pub intc_sir_irq : ℕ
intc_sir_irq = 0x040

abbrev pub intc_control : ℕ
intc_control = 0x048

module _ {D : Type 0} (bus : Bus D) (fuel base : ℕ) where
  -- `while ((SYSSTATUS & RESETDONE) == 0)`: bit 0.
  unfoldable pub wait_reset : ℕ → D → Option D
  wait_reset zero d = none
  wait_reset (suc left) d =
      let (v, d1) = bus.load d (base + 0x014) in
      let rest = wait_reset left d1 in if v % 2 == 0 then rest else some d1

  -- `left` banks from b on.
  unfoldable pub mask_banks : ℕ → ℕ → D → D
  mask_banks zero b d = d
  mask_banks (suc left) b d =
      mask_banks left (b + 1) (bus.store d (base + intc_mir_set b) (u32_mod - 1))

  -- `left` lines from m on.
  unfoldable pub clear_priorities : ℕ → ℕ → D → D
  clear_priorities zero m d = d
  clear_priorities (suc left) m d =
      clear_priorities left (m + 1) (bus.store d (base + (0x100 + m * 0x04)) 0)

  abbrev after_reset : Option D → Option D
  after_reset none = none
  after_reset (some d) =
      let d1 = mask_banks 4 0 d in
      let d2 = bus.store d1 (base + 0x068) 0xFF in
      some (bus.store (clear_priorities max_irqs 0 d2) (base + intc_control) 1)

  -- SOFTRESET is bit 1.
  unfoldable pub am335x_intc_init : D → Option D
  am335x_intc_init d = after_reset (wait_reset fuel (bus.store d (base + 0x010) 2))

  unfoldable pub am335x_intc_enable_line : D → ℕ → D
  am335x_intc_enable_line d irq = bus.store d (base + intc_mir_clear (irq / 32)) (2 ^ (irq % 32))

  unfoldable pub am335x_intc_disable_line : D → ℕ → D
  am335x_intc_disable_line d irq = bus.store d (base + intc_mir_set (irq / 32)) (2 ^ (irq % 32))

  -- Any bit from 7 up marks a spurious interrupt.
  unfoldable pub am335x_intc_get_active : D → ℕ × D
  am335x_intc_get_active d =
      let (sir, d1) = bus.load d (base + intc_sir_irq) in
      (if sir / 128 == 0 then sir % 128 else max_irqs, d1)

  unfoldable pub am335x_intc_eoi : D → ℕ → D
  am335x_intc_eoi d irq = bus.store d (base + intc_control) 1

  unfoldable pub am335x_intc_ops : IntcOps D
  am335x_intc_ops = record {
    init = am335x_intc_init;
    enable_line = am335x_intc_enable_line;
    disable_line = am335x_intc_disable_line;
    get_active = am335x_intc_get_active;
    eoi = am335x_intc_eoi;
  }
