-- ===== src/Irq/Dispatched.antt =====
-- Registration against dispatch.
use refix_os.Common.{
  ℕ, ◌≡◌, ◌<◌, refl, Option, some, none, ltb, ◌==◌, if◌then◌else◌, arith, Bool-cases, inl, inr,
  lt→ltb, ap,
}
use refix_os.Irq.Core.{IntcOps, Intc, IrqHandler, irq_register, irq_dispatch, max_irqs}

module _ {D K : Type 0} (ops : IntcOps D) (run : IrqHandler → D → K → Option (D × K)) where
  -- What a dispatch comes to when the chip reports number n and a handler is registered for it or not.
  abbrev pub served : Intc D → ℕ → Option (D × K) → Option (Intc D × K)
  served i n none = none
  served i n (some (d, k)) = some (record i { device = ops.eoi d n }, k)

  pub dispatch_registered :
      (i : Intc D) (k : K) (n : ℕ) (d : D) (fn : IrqHandler)
      → ops.get_active i.device ≡ (n, d)
      → n < max_irqs
      → i.irq_table n ≡ some fn
      → irq_dispatch ops run i k ≡ served i n (run fn d k)
  unfolding irq_dispatch
  dispatch_registered i k n d fn a h e = rw (a, irq_dispatch) (rw e (rw (lt→ltb n max_irqs h) refl))

  pub irq_table-irq_register :
      (i : Intc D) (irq : ℕ) (fn : IrqHandler) (n : ℕ)
      → irq < max_irqs
      → (irq_register ops i irq fn).irq_table n ≡ (if n == irq then some fn else i.irq_table n)
  unfolding irq_register
  irq_table-irq_register i irq fn n h = ground arith

  abbrev pub run_or : Option IrqHandler → D → K → Option (D × K)
  run_or none d k = some (d, k)
  run_or (some fn) d k = run fn d k

  chosen_entry :
      (o : Option IrqHandler) (irq n : ℕ) (fn : IrqHandler) (d : D) (k : K)
      → irq < max_irqs
      → (if ltb n max_irqs then run_or (if n == irq then some fn else o) d k else some (d, k))
        ≡ (if n == irq then run fn d k else if ltb n max_irqs then run_or o d k else some (d, k))
  chosen_entry o irq n fn d k h = elim (Bool-cases (n == irq)) [
    | inl e ↦ rw (e, lt→ltb n max_irqs (ground arith))
    | inr e ↦ rw e
  ]

  -- A dispatch after a registration for a line below 128, when the chip reports number n: the new
  -- handler runs if n is that line, what was registered before if n is another line below 128, and
  -- nothing if n is no line. In each case the dispatch ends the interrupt with that same number, and
  -- nothing else happens to the devices.
  pub dispatch-register :
      (i : Intc D) (k : K) (irq n : ℕ) (fn : IrqHandler) (d : D)
      → irq < max_irqs
      → ops.get_active i.device ≡ (n, d)
      → irq_dispatch ops run (irq_register ops i irq fn) k
        ≡ served (irq_register ops i irq fn) n (
            if n == irq
            then run fn d k
            else if ltb n max_irqs
            then run_or (i.irq_table n) d k
            else some (d, k))
  unfolding irq_dispatch irq_register
  dispatch-register i k irq n fn d h a =
      let i' : Intc D = record i { irq_table = λ m. if m == irq then some fn else i.irq_table m } in
      rw (lt→ltb irq max_irqs h, a) (ap (served i' n) (chosen_entry (i.irq_table n) irq n fn d k h))
