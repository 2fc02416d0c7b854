-- ===== src/Irq/Timers.antt =====
-- The timer drivers, kernel/drivers/timer/sp804.c and dmtimer.c, and the tick of
-- kernel/drivers/timer/timer_core.c on the kernel's state. The polling loops run on fuel.
use refix_os.Common.{
  ℕ, zero, suc, ◌+◌, ◌*◌, ◌/◌, ◌%◌, Option, some, none, ◌==◌, u32_mod, sub32, if◌then◌else◌,
}
use refix_os.Irq.Bus.{Bus}
use refix_os.Kernel.{Kernel}
use refix_os.Sched.{scheduler_tick}
use refix_os.Timer.{TimerHandler, on_scheduler_tick, timer_tick}

abbrev pub callback : Option TimerHandler → Kernel → Kernel
callback none k = k
callback (some on_scheduler_tick) k = record k { sched = scheduler_tick k.sched }

-- `timer_tick` with the call of the handler that it makes.
unfoldable pub tick : Kernel → Kernel
unfolding timer_tick
tick k = let (t, fn) = timer_tick k.timer in callback fn (record k { timer = t })

-- The count of timer clocks in a period, which wraps.
abbrev pub period_count : ℕ → ℕ → ℕ
period_count period_us clk_hz = period_us * (clk_hz / 1000000) % u32_mod

module _ {D : Type 0} (bus : Bus D) where
  -- ENABLE, PERIODIC, INTEN and 32BIT are bits 7, 6, 5 and 1.
  unfoldable pub sp804_init : ℕ → ℕ → ℕ → D → D
  sp804_init base clk_hz period_us d =
      let d1 = bus.store d (base + 0x08) 0 in
      let d2 = bus.store d1 (base + 0x00) (period_count period_us clk_hz) in
      bus.store d2 (base + 0x08) (128 + 64 + 32 + 2)

  unfoldable pub sp804_irq : ℕ → D → Kernel → D × Kernel
  sp804_irq base d k = (bus.store d (base + 0x0C) 1, tick k)

  -- `while (REG32(address) & bit)`, with the bit as a power of two.
  unfoldable pub poll_clear : ℕ → ℕ → ℕ → D → Option D
  poll_clear address bit zero d = none
  poll_clear address bit (suc fuel) d =
      let (v, d1) = bus.load d address in
      let rest = poll_clear address bit fuel d1 in if v / bit % 2 == 1 then rest else some d1

  infixl 5 ◌>>=◌
  abbrev ◌>>=◌ : Option D → (D → Option D) → Option D
  none >>= f = none
  some d >>= f = f d

  -- Each wait has the same fuel. TIOCP_CFG is 0x10, IRQSTATUS 0x28, IRQENABLE_SET 0x2C, TCLR 0x38,
  -- TCRR 0x3C, TLDR 0x40, TWPS 0x48 and TSICR 0x54; POSTED is bit 2.
  unfoldable pub dmtimer_init : ℕ → ℕ → ℕ → ℕ → D → Option D
  dmtimer_init fuel base clk_hz period_us d = do
    let reload = sub32 0 (period_count period_us clk_hz)
    d1 ← poll_clear (base + 0x10) 1 fuel (bus.store d (base + 0x10) 1)
    d2 ← poll_clear (base + 0x48) 1 fuel (bus.store d1 (base + 0x54) 4)
    let d3 = bus.store (bus.store d2 (base + 0x38) 0) (base + 0x28) 7
    d4 ← poll_clear (base + 0x48) 4 fuel d3
    d5 ← poll_clear (base + 0x48) 2 fuel (bus.store d4 (base + 0x40) reload)
    let d6 = bus.store (bus.store d5 (base + 0x3C) reload) (base + 0x2C) 2
    d7 ← poll_clear (base + 0x48) 1 fuel d6
    some (bus.store d7 (base + 0x38) (1 + 2))

  unfoldable pub dmtimer_irq : ℕ → D → Kernel → D × Kernel
  dmtimer_irq base d k = (bus.store d (base + 0x28) 2, tick k)
