-- ===== src/Irq/Core.antt =====
-- kernel/drivers/intc/intc_core.c: the table of handlers and the dispatch.
use refix_os.Common.{ℕ, Option, some, none, ltb, if◌then◌else◌, ◌==◌}

abbrev pub max_irqs : ℕ
max_irqs = 128

-- The functions that kernel/main.c registers.
pub data IrqHandler : Type 0 where
  timer_irq uart_rx_irq : IrqHandler

-- `struct intc_ops`: what the chip drivers offer, over the state of the chip.
pub record IntcOps (D : Type 0) : Type 0 where
  -- `none` when it still waits for the chip at the end of its fuel
  pub init : D → Option D
  pub enable_line : D → ℕ → D
  pub disable_line : D → ℕ → D
  pub get_active : D → ℕ × D
  pub eoi : D → ℕ → D

pub record Intc (D : Type 0) : Type 0 where
  pub device : D
  pub irq_table : ℕ → Option IrqHandler

module _ {D : Type 0} (ops : IntcOps D) where
  abbrev with_device : Intc D → Option D → Option (Intc D)
  with_device i none = none
  with_device i (some d) = some (record i { device = d })

  unfoldable pub irq_init : Intc D → Option (Intc D)
  irq_init i =
      with_device (record i { irq_table = λ n. if ltb n max_irqs then none else i.irq_table n })
        (ops.init i.device)

  unfoldable pub irq_register : Intc D → ℕ → IrqHandler → Intc D
  irq_register i irq fn =
      if ltb irq max_irqs
      then record i { irq_table = λ n. if n == irq then some fn else i.irq_table n }
      else i

  unfoldable pub irq_enable : Intc D → ℕ → Intc D
  irq_enable i irq =
      if ltb irq max_irqs then record i { device = ops.enable_line i.device irq } else i

  -- The state K is what the handlers work on besides the devices, `run` what they do; `none` says
  -- that a handler was still polling a device when its fuel ran out.
  module _ {K : Type 0} (run : IrqHandler → D → K → Option (D × K)) where
    abbrev pub run_entry : Option IrqHandler → D → K → Option (D × K)
    run_entry none d k = some (d, k)
    run_entry (some fn) d k = run fn d k

    abbrev pub end_of_interrupt : Intc D → ℕ → Option (D × K) → Option (Intc D × K)
    end_of_interrupt i n none = none
    end_of_interrupt i n (some (d, k)) = some (record i { device = ops.eoi d n }, k)

    unfoldable pub irq_dispatch : Intc D → K → Option (Intc D × K)
    irq_dispatch i k =
        let (n, d) = ops.get_active i.device in
        end_of_interrupt i n (if ltb n max_irqs then run_entry (i.irq_table n) d k else some (d, k))
