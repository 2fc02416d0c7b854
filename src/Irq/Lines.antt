-- ===== src/Irq/Lines.antt =====
-- What both interrupt controllers promise about their lines: the contract of `struct intc_ops`.
use refix_os.Common.{
  ℕ, ◌+◌, ◌/◌, ◌%◌, ◌^◌, ◌<◌, ◌≡◌, ◌∙◌, ap, refl, Bool, true, false, not, ◌&&◌, ◌||◌, ◌==◌,
  Bool-cases, inl, inr, arith, bit, ltb, bit-pow, ltb→lt, ◌≤◌, ltb_false→le,
}
use refix_os.Irq.Bus.{Bus}
use refix_os.Irq.Core.{IntcOps, Intc, irq_enable, max_irqs}
use refix_os.Irq.Gic.{
  gicv1_ops, gicv1_enable_line, gicv1_disable_line, gicd_isenabler, gicd_icenabler,
}
use refix_os.Irq.Am335x.{
  am335x_intc_ops, am335x_intc_enable_line, am335x_intc_disable_line, intc_mir_clear, intc_mir_set,
}

-- `enabled d n` says that line n is not masked in state d.
pub record IsIntc {D : Type 0} (ops : IntcOps D) (enabled : D → ℕ → Bool) : Type 0 where
  pub enable :
      (d : D) (irq n : ℕ)
      → irq < max_irqs
      → n < max_irqs
      → enabled (ops.enable_line d irq) n ≡ (enabled d n || (n == irq))
  pub disable :
      (d : D) (irq n : ℕ)
      → irq < max_irqs
      → n < max_irqs
      → enabled (ops.disable_line d irq) n ≡ (enabled d n && not (n == irq))

-- The set-enable and clear-enable words of a GIC, by its architecture: a bit that is written as 1
-- enables or disables its line, and a 0 leaves it.
pub record IsGic {D : Type 0} (bus : Bus D) (dist : ℕ) (enabled : D → ℕ → Bool) : Type 0 where
  pub set_word :
      (d : D) (w v n : ℕ)
      → w < 4
      → n < max_irqs
      → enabled (bus.store d (dist + gicd_isenabler w) v) n
        ≡ (enabled d n || ((n / 32 == w) && bit v (n % 32)))
  pub clear_word :
      (d : D) (w v n : ℕ)
      → w < 4
      → n < max_irqs
      → enabled (bus.store d (dist + gicd_icenabler w) v) n
        ≡ (enabled d n && not ((n / 32 == w) && bit v (n % 32)))

-- The same of the AM335x, whose registers clear and set mask bits.
pub record IsAm335x {D : Type 0} (bus : Bus D) (base : ℕ) (enabled : D → ℕ → Bool) : Type 0 where
  pub clear_mask :
      (d : D) (w v n : ℕ)
      → w < 4
      → n < max_irqs
      → enabled (bus.store d (base + intc_mir_clear w) v) n
        ≡ (enabled d n || ((n / 32 == w) && bit v (n % 32)))
  pub set_mask :
      (d : D) (w v n : ℕ)
      → w < 4
      → n < max_irqs
      → enabled (bus.store d (base + intc_mir_set w) v) n
        ≡ (enabled d n && not ((n / 32 == w) && bit v (n % 32)))

-- The word and bit that the drivers compute belong to the line and to no other.
its_bit : (irq n : ℕ) → ((n / 32 == irq / 32) && bit (2 ^ (irq % 32)) (n % 32)) ≡ (n == irq)
its_bit irq n = rw (bit-pow (irq % 32) (n % 32) (omega arith) (omega arith)) (ground arith)

module _ {D : Type 0} (bus : Bus D) (base : ℕ) (enabled : D → ℕ → Bool) where
  -- On a GIC that behaves by its architecture, gicv1's operations enable and disable exactly the line
  -- that they are given, of the 128 lines.
  pub gicv1-IsIntc : (cpu : ℕ) → IsGic bus base enabled → IsIntc (gicv1_ops bus base cpu) enabled
  unfolding gicv1_ops gicv1_enable_line gicv1_disable_line
  gicv1-IsIntc cpu chip = record {
    enable = λ d irq n l h.
        chip.set_word d (irq / 32) (2 ^ (irq % 32)) n (omega arith) h
        ∙ ap (λ b. enabled d n || b) (its_bit irq n);
    disable = λ d irq n l h.
        chip.clear_word d (irq / 32) (2 ^ (irq % 32)) n (omega arith) h
        ∙ ap (λ b. enabled d n && not b) (its_bit irq n);
  }

  -- On an AM335x controller that behaves by its manual, am335x_intc's operations enable and disable
  -- exactly the line that they are given, of the 128 lines.
  pub am335x-IsIntc :
      (fuel : ℕ) → IsAm335x bus base enabled → IsIntc (am335x_intc_ops bus fuel base) enabled
  unfolding am335x_intc_ops am335x_intc_enable_line am335x_intc_disable_line
  am335x-IsIntc fuel chip = record {
    enable = λ d irq n l h.
        chip.clear_mask d (irq / 32) (2 ^ (irq % 32)) n (omega arith) h
        ∙ ap (λ b. enabled d n || b) (its_bit irq n);
    disable = λ d irq n l h.
        chip.set_mask d (irq / 32) (2 ^ (irq % 32)) n (omega arith) h
        ∙ ap (λ b. enabled d n && not b) (its_bit irq n);
  }

not_line : (irq n : ℕ) → max_irqs ≤ irq → n < max_irqs → (n == irq) ≡ false
not_line irq n l h = ground arith

or_false : (b : Bool) → b ≡ (b || false)
or_false true = refl
or_false false = refl

-- Through either chip, by the contract alone: irq_enable lets exactly the line that it is given pass,
-- keeps what was registered, and does nothing for a number that is no line.
irq_enable_lem :
    {D : Type 0} (ops : IntcOps D) (enabled : D → ℕ → Bool) (i : Intc D) (irq n : ℕ)
    → IsIntc ops enabled
    → n < max_irqs
    → (enabled (irq_enable ops i irq).device n ≡ (enabled i.device n || (n == irq)))
      × ((irq_enable ops i irq).irq_table ≡ i.irq_table)
unfolding irq_enable
irq_enable_lem ops enabled i irq n laws h = elim (Bool-cases (ltb irq max_irqs)) [
  | inl e ↦ rw e (laws.enable i.device irq n (ltb→lt irq max_irqs e) h, refl)
  | inr e ↦
      rw e
        (rw (not_line irq n (ltb_false→le irq max_irqs e) h) (or_false (enabled i.device n)), refl)
]
