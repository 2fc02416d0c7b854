-- ===== src/Irq/Acknowledge.antt =====
-- The number that a GIC interrupt is ended with, against the number that it was acknowledged with.
use refix_os.Common.{ℕ, ◌+◌, ◌%◌, ◌≡◌, ap, ltb, leb, if◌then◌else◌, arith}
use refix_os.Irq.Bus.{Bus}
use refix_os.Irq.Core.{max_irqs}
use refix_os.Irq.Gic.{gicv1_get_active, gicv1_eoi, gicc_iar, gicc_eoir, gic_spurious}

-- The end of interrupt that follows an acknowledge writes back the interrupt's number, the low ten
-- bits of what IAR read, if it is below 128 or the spurious 1023. For the numbers from 128 to 1022 it
-- writes 1023 instead, not the number that was acknowledged.
pub gicv1_eoi-get_active :
    {D : Type 0} (bus : Bus D) (dist cpu : ℕ) (d : D)
    → let (iar, d1) = bus.load d (cpu + gicc_iar) in
      let (n, d2) = gicv1_get_active bus dist cpu d in
      gicv1_eoi bus dist cpu d2 n
      ≡ bus.store d1
          (cpu + gicc_eoir)
          (if ltb (iar % 1024) max_irqs then iar % 1024 else gic_spurious)
unfolding gicv1_get_active gicv1_eoi
gicv1_eoi-get_active bus dist cpu d =
    ap (bus.store (bus.load d (cpu + gicc_iar)).1 (cpu + gicc_eoir))
      (number ((bus.load d (cpu + gicc_iar)).0 % 1024))
  where
    number :
        (id : ℕ)
        → (if leb max_irqs (if leb gic_spurious id then max_irqs else id)
            then gic_spurious
            else if leb gic_spurious id
            then max_irqs
            else id)
          ≡ (if ltb id max_irqs then id else gic_spurious)
    number id = ground arith
