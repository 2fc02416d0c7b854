-- ===== src/Irq/Polling.antt =====
-- The waits of the DMTIMER driver end.
use refix_os.Common.{
  false, ℕ, zero, suc, ◌+◌, ◌/◌, ◌%◌, ◌<◌, ◌≤◌, ◌≡◌, ◌∙◌, refl, List, ◌∷◌, some, ◌⊎◌, inl, inr,
  ◌==◌, Bool-cases, sub32, arith, ap,
}
use refix_os.Irq.Bus.{Bus}
use refix_os.Irq.Timers.{poll_clear, dmtimer_init, period_count}

-- A load at the address does not show the bit.
abbrev pub IsClear : {D : Type 0} → Bus D → ℕ → ℕ → D → Type 0
IsClear bus address b d = ((bus.load d address).0 / b % 2 == 1) ≡ false

-- The load does not show the bit, or the bound on how often one can do so falls.
abbrev pub Clears : {D : Type 0} → Bus D → (D → ℕ) → ℕ → ℕ → D → Type 0
Clears bus busy address b d = IsClear bus address b d ⊎ (busy (bus.load d address).1 < busy d)

-- A store to the target takes effect right behind a load of the status that does not show the bit;
-- what becomes of any other is not said.
abbrev pub Accepts : {D : Type 0} → Bus D → (D → List (ℕ × ℕ)) → ℕ → ℕ → ℕ → D → Type 0
Accepts bus stores status b target d =
    (v : ℕ)
    → IsClear bus status b d
    → stores (bus.store (bus.load d status).1 target v) ≡ (target, v) ∷ stores d

-- A timer at `base` by its data sheet, with the stores that have taken effect, the latest first. Its two
-- status registers settle: TIOCP_CFG at 0x10 with the reset bit, and TWPS at 0x48 with a bit each for
-- the registers of control 0x38, counter 0x3C and reload 0x40, whose stores are posted. `busy d`
-- bounds how often a load of a status can still show its bit, and `limit` bounds that whatever was
-- stored.
pub record IsSettling {D : Type 0} (bus : Bus D) (base : ℕ) (stores : D → List (ℕ × ℕ))
    (busy : D → ℕ) (limit : ℕ) : Type 0 where
  pub keeps : (d : D) (a : ℕ) → stores (bus.load d a).1 ≡ stores d
  pub resets : (d : D) (v : ℕ) → stores (bus.store d (base + 0x10) v) ≡ (base + 0x10, v) ∷ stores d
  pub status : (d : D) (v : ℕ) → stores (bus.store d (base + 0x28) v) ≡ (base + 0x28, v) ∷ stores d
  pub enable : (d : D) (v : ℕ) → stores (bus.store d (base + 0x2C) v) ≡ (base + 0x2C, v) ∷ stores d
  pub mode : (d : D) → Accepts bus stores (base + 0x10) 1 (base + 0x54) d
  pub control : (d : D) → Accepts bus stores (base + 0x48) 1 (base + 0x38) d
  pub counter : (d : D) → Accepts bus stores (base + 0x48) 2 (base + 0x3C) d
  pub reload : (d : D) → Accepts bus stores (base + 0x48) 4 (base + 0x40) d
  pub reset_done : (d : D) → Clears bus busy (base + 0x10) 1 d
  pub control_posted : (d : D) → Clears bus busy (base + 0x48) 1 d
  pub counter_posted : (d : D) → Clears bus busy (base + 0x48) 2 d
  pub reload_posted : (d : D) → Clears bus busy (base + 0x48) 4 d
  pub bounded : (d : D) → busy d ≤ limit

module _ {D : Type 0} (bus : Bus D) (base : ℕ) (stores : D → List (ℕ × ℕ)) (busy : D → ℕ)
    (limit : ℕ) (dev : IsSettling bus base stores busy limit) where
  -- A wait ends with a load, in some state e, that does not show the bit.
  poll_ends :
      (address b fuel : ℕ) (d : D)
      → ((e : D) → Clears bus busy address b e)
      → busy d < fuel
      → (e : D) × IsClear bus address b e
        × (poll_clear bus address b fuel d ≡ some (bus.load e address).1)
        × (stores e ≡ stores d)
  unfolding poll_clear
  poll_ends address b zero d clears h = absurd (omega arith)
  poll_ends address b (suc fuel) d clears h =
      elim (Bool-cases ((bus.load d address).0 / b % 2 == 1)) [
        | inl e ↦ rw e (elim (clears d) [
          | inl z ↦ absurd (ground (arith, z, e))
          | inr l ↦
              let (x, c, q, s) =
                poll_ends address b fuel (bus.load d address).1 clears (omega arith) in
              (x, c, q, s ∙ dev.keeps d address)
        ])
        | inr e ↦ rw e (d, e, refl, refl)
      ]

  -- On a timer that behaves by its data sheet, and with fuel above the limit, dmtimer_init ends. The
  -- stores that take effect are the reset, the posted mode, the stop, the acknowledge, the count of a
  -- period below zero as reload and as first value, the overflow interrupt and the start, all of them
  -- and in this order.
  pub dmtimer_init_ends :
      (fuel clk_hz period_us : ℕ) (d : D)
      → limit < fuel
      → let reload = sub32 0 (period_count period_us clk_hz) in
        (d' : D) × (dmtimer_init bus fuel base clk_hz period_us d ≡ some d')
        × (stores d'
            ≡ (base + 0x38, 3)
              ∷ (base + 0x2C, 2)
              ∷ (base + 0x3C, reload)
              ∷ (base + 0x40, reload)
              ∷ (base + 0x28, 7)
              ∷ (base + 0x38, 0)
              ∷ (base + 0x54, 4)
              ∷ (base + 0x10, 1)
              ∷ stores d)
  unfolding dmtimer_init
  dmtimer_init_ends fuel clk_hz period_us d h =
      let reload = sub32 0 (period_count period_us clk_hz) in
      let (e1, c1, q1, s1) =
        poll_ends (base + 0x10) 1 fuel (bus.store d (base + 0x10) 1) dev.reset_done (room _) in
      let d1 = (bus.load e1 (base + 0x10)).1 in
      let (e2, c2, q2, s2) =
        poll_ends (base + 0x48) 1 fuel (bus.store d1 (base + 0x54) 4) dev.control_posted (room _) in
      let x = bus.store (bus.load e2 (base + 0x48)).1 (base + 0x38) 0 in
      let (e3, c3, q3, s3) =
        poll_ends (base + 0x48) 4 fuel (bus.store x (base + 0x28) 7) dev.reload_posted (room _) in
      let d3 = (bus.load e3 (base + 0x48)).1 in
      let (e4, c4, q4, s4) =
        poll_ends (base + 0x48) 2 fuel (bus.store d3 (base + 0x40) reload) dev.counter_posted
          (room _) in
      let y = bus.store (bus.load e4 (base + 0x48)).1 (base + 0x3C) reload in
      let (e5, c5, q5, s5) =
        poll_ends (base + 0x48) 1 fuel (bus.store y (base + 0x2C) 2) dev.control_posted (room _) in
      let t2 = s2 ∙ dev.mode e1 4 c1 ∙ ap (λ l. (base + 0x54, 4) ∷ l) (s1 ∙ dev.resets d 1) in
      let t3 =
        s3
        ∙ dev.status x 7
        ∙ ap (λ l. (base + 0x28, 7) ∷ l)
            (dev.control e2 0 c2 ∙ ap (λ l. (base + 0x38, 0) ∷ l) t2) in
      let t4 = s4 ∙ dev.reload e3 reload c3 ∙ ap (λ l. (base + 0x40, reload) ∷ l) t3 in
      let t5 =
        s5
        ∙ dev.enable y 2
        ∙ ap (λ l. (base + 0x2C, 2) ∷ l)
            (dev.counter e4 reload c4 ∙ ap (λ l. (base + 0x3C, reload) ∷ l) t4) in
      rw q1 (
        rw q2 (
          rw q3 (rw q4 (rw q5 (_, refl, dev.control e5 3 c5 ∙ ap (λ l. (base + 0x38, 3) ∷ l) t5)))))
    where
      room : (e : D) → busy e < fuel
      room e = omega (arith, dev.bounded e)
