-- ===== src/Irq/Settled.antt =====
-- The waits of the start-up code on the BeagleBone Black: kernel/platform/bbb/board.c, and the set-up of
-- the timer and of the interrupt controller in kernel/drivers.
use refix_os.Irq.Bus.{Bus}
use refix_os.Irq.Boards.{
  poll_idle, idlest, cm_per_base, intc_base, clock_enable_timer2, cm_dpll_base,
  platform_init_devices, timer_init, intc_ops,
}
use refix_os.Irq.Am335x.{wait_reset, am335x_intc_init, am335x_intc_ops}
use refix_os.Irq.Timers.{poll_clear, dmtimer_init, period_count}
use refix_os.Irq.Handlers.{timer_base}
use refix_os.Mmu.{bbb, Board, qemu}
use refix_os.Common.{
  ℕ, ◌+◌, ◌≤◌, ◌<◌, suc, ◌/◌, ◌%◌, ◌≡◌, zero, ◌⊎◌, some, arith, Bool-cases, ◌==◌, inr, inl, ap,
  refl, ◌∙◌, sub32,
}
use refix_os.Irq.Core.{irq_init, Intc}
use refix_os.Irq.Gic.{gicv1_ops}

abbrev clkctrl : ℕ
clkctrl = cm_per_base + 0x080

-- The idle state that a module goes to: disabled when its mode is 0, else functional.
abbrev pub idle_state : ℕ → ℕ
idle_state zero = 3
idle_state (suc mode) = 0

-- The bit of the timer's TWPS is clear, or how often it can still show falls.
abbrev pub Posts : {D : Type 0} → Bus D → (D → ℕ) → ℕ → D → Type 0
Posts bus busy bit d =
    ((bus.load d (timer_base bbb + 0x48)).0 / bit % 2 ≡ 0)
    ⊎ (busy (bus.load d (timer_base bbb + 0x48)).1 < busy d)

-- Registers that settle: `busy` bounds how often the chip can still show that it is not ready, and
-- `limit` bounds that whatever happens. `mode` is what TIMER2_CLKCTRL was last set to.
pub record IsSettled {D : Type 0} (bus : Bus D) (mode busy : D → ℕ) (limit : ℕ) : Type 0 where
  pub bounded : (d : D) → busy d ≤ limit
  pub mode_set : (d : D) (v : ℕ) → mode (bus.store d clkctrl v) ≡ v
  pub mode_keeps : (d : D) → mode (bus.load d clkctrl).1 ≡ mode d
  pub clock :
      (d : D)
      → (idlest (bus.load d clkctrl).0 ≡ idle_state (mode d))
        ⊎ (busy (bus.load d clkctrl).1 < busy d)
  pub reset_done :
      (d : D)
      → ((bus.load d (intc_base + 0x014)).0 % 2 ≡ 1)
        ⊎ (busy (bus.load d (intc_base + 0x014)).1 < busy d)
  pub soft_reset :
      (d : D)
      → ((bus.load d (timer_base bbb + 0x10)).0 / 1 % 2 ≡ 0)
        ⊎ (busy (bus.load d (timer_base bbb + 0x10)).1 < busy d)
  pub control_posted : (d : D) → Posts bus busy 1 d
  pub counter_posted : (d : D) → Posts bus busy 2 d
  pub reload_posted : (d : D) → Posts bus busy 4 d

-- What the start-up code waits for besides the transmitter of the console: nothing on the QEMU board.
abbrev pub Settles : {D : Type 0} → Board → Bus D → (D → ℕ) → (D → ℕ) → ℕ → Type 0
Settles qemu bus mode busy limit = Unit
Settles bbb bus mode busy limit = IsSettled bus mode busy limit

module _ {D : Type 0} (bus : Bus D) (mode busy : D → ℕ) (limit : ℕ)
    (chip : IsSettled bus mode busy limit) where
  poll_idle_ends :
      (fuel state left : ℕ) (d : D)
      → busy d < left
      → idle_state (mode d) ≡ state
      → (d' : D) × (poll_idle bus fuel clkctrl state left d ≡ some d')
  unfolding poll_idle
  poll_idle_ends fuel state zero d h e = absurd (omega arith)
  poll_idle_ends fuel state (suc left) d h e =
      elim (Bool-cases (idlest (bus.load d clkctrl).0 == state)) [
        | inl q ↦ rw q ((bus.load d clkctrl).1, refl)
        | inr q ↦ rw q (elim (chip.clock d) [
          | inl c ↦ absurd (ground (arith, c, e, q))
          | inr c ↦
              poll_idle_ends fuel state left (bus.load d clkctrl).1 (omega arith)
                (ap idle_state (chip.mode_keeps d) ∙ e)
        ])
      ]

  wait_reset_ends :
      (fuel left : ℕ) (d : D)
      → busy d < left
      → (d' : D) × (wait_reset bus fuel intc_base left d ≡ some d')
  unfolding wait_reset
  wait_reset_ends fuel zero d h = absurd (omega arith)
  wait_reset_ends fuel (suc left) d h =
      elim (Bool-cases ((bus.load d (intc_base + 0x014)).0 % 2 == 0)) [
        | inr q ↦ rw q ((bus.load d (intc_base + 0x014)).1, refl)
        | inl q ↦ rw q (elim (chip.reset_done d) [
          | inl c ↦ absurd (ground (arith, c, q))
          | inr c ↦ wait_reset_ends fuel left (bus.load d (intc_base + 0x014)).1 (omega arith)
        ])
      ]

  poll_clear_ends :
      (address bit left : ℕ) (d : D)
      → ((e : D) → ((bus.load e address).0 / bit % 2 ≡ 0) ⊎ (busy (bus.load e address).1 < busy e))
      → busy d < left
      → (d' : D) × (poll_clear bus address bit left d ≡ some d')
  unfolding poll_clear
  poll_clear_ends address bit zero d s h = absurd (omega arith)
  poll_clear_ends address bit (suc left) d s h =
      elim (Bool-cases ((bus.load d address).0 / bit % 2 == 1)) [
        | inr q ↦ rw q ((bus.load d address).1, refl)
        | inl q ↦ rw q (elim (s d) [
          | inl c ↦ absurd (ground (arith, c, q))
          | inr c ↦ poll_clear_ends address bit left (bus.load d address).1 s (omega arith)
        ])
      ]

  clock_enable_ends :
      (fuel : ℕ) (d : D) → limit < fuel → (d' : D) × (clock_enable_timer2 bus fuel d ≡ some d')
  unfolding clock_enable_timer2
  clock_enable_ends fuel d h =
      let d0 = bus.store d clkctrl 0 in
      let (d1, q1) = poll_idle_ends fuel 3 fuel d0 (room d0) (ap idle_state (chip.mode_set d 0)) in
      let d2 = bus.store (bus.store d1 (cm_dpll_base + 0x08) 1) (cm_per_base + 0x000) 2 in
      let d3 = bus.store d2 clkctrl 2 in
      let (d4, q4) = poll_idle_ends fuel 0 fuel d3 (room d3) (ap idle_state (chip.mode_set d2 2)) in
      rw q1 (rw q4 (d4, refl))
    where
      room : (e : D) → busy e < fuel
      room e = omega (arith, chip.bounded e)

  am335x_intc_init_ends :
      (fuel : ℕ) (d : D)
      → limit < fuel
      → (d' : D) × (am335x_intc_init bus fuel intc_base d ≡ some d')
  unfolding am335x_intc_init
  am335x_intc_init_ends fuel d h =
      let d0 = bus.store d (intc_base + 0x010) 2 in
      let (d1, q) = wait_reset_ends fuel fuel d0 (omega (arith, chip.bounded d0)) in rw q (_, refl)

  dmtimer_init_settles :
      (fuel clk_hz period_us : ℕ) (d : D)
      → limit < fuel
      → (d' : D) × (dmtimer_init bus fuel (timer_base bbb) clk_hz period_us d ≡ some d')
  unfolding dmtimer_init
  dmtimer_init_settles fuel clk_hz period_us d h =
      let base = timer_base bbb in
      let reload = sub32 0 (period_count period_us clk_hz) in
      let (d1, q1) =
        poll_clear_ends (base + 0x10) 1 fuel (bus.store d (base + 0x10) 1) chip.soft_reset
          (room _) in
      let (d2, q2) = polled 1 (bus.store d1 (base + 0x54) 4) chip.control_posted in
      let d3 = bus.store (bus.store d2 (base + 0x38) 0) (base + 0x28) 7 in
      let (d4, q4) = polled 4 d3 chip.reload_posted in
      let (d5, q5) = polled 2 (bus.store d4 (base + 0x40) reload) chip.counter_posted in
      let d6 = bus.store (bus.store d5 (base + 0x3C) reload) (base + 0x2C) 2 in
      let (d7, q7) = polled 1 d6 chip.control_posted in
      rw q1 (rw q2 (rw q4 (rw q5 (rw q7 (_, refl)))))
    where
      room : (e : D) → busy e < fuel
      room e = omega (arith, chip.bounded e)

      polled :
          (bit : ℕ) (e : D)
          → ((x : D) → Posts bus busy bit x)
          → (d' : D) × (poll_clear bus (timer_base bbb + 0x48) bit fuel e ≡ some d')
      polled bit e clears = poll_clear_ends (timer_base bbb + 0x48) bit fuel e clears (room e)

module _ {D : Type 0} (bus : Bus D) (mode busy : D → ℕ) (limit : ℕ) where
  pub platform_init_devices_ends :
      (b : Board) (fuel : ℕ) (d : D)
      → Settles b bus mode busy limit
      → limit < fuel
      → (d' : D) × (platform_init_devices bus fuel b d ≡ some d')
  unfolding platform_init_devices
  platform_init_devices_ends qemu fuel d chip h = (d, refl)
  platform_init_devices_ends bbb fuel d chip h = clock_enable_ends bus mode busy limit chip fuel d h

  pub irq_init_ends :
      (b : Board) (fuel : ℕ) (i : Intc D)
      → Settles b bus mode busy limit
      → limit < fuel
      → (i' : Intc D) × (irq_init (intc_ops bus fuel b) i ≡ some i')
  unfolding irq_init gicv1_ops am335x_intc_ops
  irq_init_ends qemu fuel i chip h = (_, refl)
  irq_init_ends bbb fuel i chip h =
      let (d, q) = am335x_intc_init_ends bus mode busy limit chip fuel i.device h in rw q (_, refl)

  pub timer_init_ends :
      (b : Board) (fuel period_us : ℕ) (d : D)
      → Settles b bus mode busy limit
      → limit < fuel
      → (d' : D) × (timer_init bus fuel b period_us d ≡ some d')
  timer_init_ends qemu fuel period_us d chip h = (_, refl)
  timer_init_ends bbb fuel period_us d chip h =
      dmtimer_init_settles bus mode busy limit chip fuel _ period_us d h
