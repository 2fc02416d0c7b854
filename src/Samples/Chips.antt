-- ===== src/Samples/Chips.antt =====
-- Concrete chips, which the tests of several parts share.
use refix_os.Irq.Core.{Intc, IntcOps, timer_irq, uart_rx_irq}
use refix_os.Common.{
  ℕ, List, ◌∷◌, ◌≡◌, if◌then◌else◌, ◌==◌, [], some, ◌%◌, ◌/◌, arith, refl, none, Bool, ◌^◌, ◌≤◌,
  ◌*◌, false, true, ◌⊎◌, ◌<◌, inr, inl, suc, zero,
}
use refix_os.Irq.Bus.{Bus}
use refix_os.Irq.Drained.{IsPl011}
use refix_os.Irq.Settled.{idle_state, IsSettled}
use refix_os.Irq.Transmit.{HasRoom}
use refix_os.Mmu.{bbb}

-- A controller that reports line n for ever, in front of any device.
abbrev pub reports : {D : Type 0} → ℕ → IntcOps D
reports n = record {
  init = λ d. some d;
  enable_line = λ d irq. d;
  disable_line = λ d irq. d;
  get_active = λ d. (n, d);
  eoi = λ d irq. d;
}

abbrev pub wired : {D : Type 0} → D → Intc D
wired d = record {
  device = d;
  irq_table = λ n. if n == 36 then some timer_irq else if n == 44 then some uart_rx_irq else none;
}

-- A PL011 whose FIFO is the list.
abbrev pub low_bytes : List ℕ → List ℕ
low_bytes [] = []
low_bytes (c ∷ d) = (c % 256) ∷ low_bytes d

abbrev pub flag_register : List ℕ → ℕ
flag_register [] = 16
flag_register (c ∷ d) = 0

abbrev pub data_register : List ℕ → ℕ × List ℕ
data_register [] = (0, [])
data_register (c ∷ d) = (c, d)

abbrev pub pl011_bus : Bus (List ℕ)
pl011_bus = record {
  load = λ d a. if a == 0x10009018 then (flag_register d, d) else data_register d;
  store = λ d a v. d;
  store8 = λ d a v. d;
}

pub pl011_bus-IsPl011 : IsPl011 pl011_bus 0x10009000 low_bytes
pl011_bus-IsPl011 = record {
  flag_keeps = λ d. refl;
  flag_empty = no_bytes;
  flag_some = some_bytes;
  takes = first;
}
  where
    no_bytes : (d : List ℕ) → low_bytes d ≡ [] → flag_register d / 16 % 2 ≡ 1
    no_bytes [] e = refl
    no_bytes (c ∷ d) e = ground arith

    some_bytes :
        (d : List ℕ) (c : ℕ) (cs : List ℕ) → low_bytes d ≡ c ∷ cs → flag_register d / 16 % 2 ≡ 0
    some_bytes [] c cs e = ground arith
    some_bytes (x ∷ d) c cs e = refl

    first :
        (d : List ℕ) (c : ℕ) (cs : List ℕ)
        → low_bytes d ≡ c ∷ cs
        → ((data_register d).0 % 256 ≡ c) × (low_bytes (data_register d).1 ≡ cs)
    first [] c cs e = ground arith
    first (x ∷ d) c cs e = ground arith

-- The BeagleBone Black's status registers: the first reading after a store shows a busy chip, and the
-- next one that it is ready. The state is the mode of the timer's clock, and whether it is busy.
abbrev clkctrl_value : ℕ → ℕ
clkctrl_value m = idle_state m * 2 ^ 16

abbrev pub status_register : ℕ × Bool → ℕ → ℕ
status_register (m, true) a = if a == 0x44E00080 then 2 ^ 16 else if a == 0x48200014 then 0 else 255
status_register (m, false) a =
    if a == 0x44E00080
    then clkctrl_value m
    else if a == 0x48200014
    then 1
    else if a == 0x44E09014
    then 32
    else 0

abbrev pub status_bus : Bus (ℕ × Bool)
status_bus = record {
  load = λ d a. (status_register d a, (d.0, false));
  store = λ d a v. (if a == 0x44E00080 then v else d.0, true);
  store8 = λ d a v. d;
}

abbrev pub status_mode : ℕ × Bool → ℕ
status_mode d = d.0

abbrev pub status_busy : ℕ × Bool → ℕ
status_busy d = if d.1 then 1 else 0

pub status_bus-IsSettled : IsSettled status_bus status_mode status_busy 1
status_bus-IsSettled = record {
  bounded = bound;
  mode_set = λ d v. refl;
  mode_keeps = λ d. refl;
  clock = clock_ready;
  reset_done = reset_ready;
  soft_reset = soft_ready;
  control_posted = λ d. posted_ready d 1 refl;
  counter_posted = λ d. posted_ready d 2 refl;
  reload_posted = λ d. posted_ready d 4 refl;
}
  where
    bound : (d : ℕ × Bool) → status_busy d ≤ 1
    bound (m, true) = omega arith
    bound (m, false) = omega arith

    clock_ready :
        (d : ℕ × Bool)
        → (status_register d 0x44E00080 / 2 ^ 16 % 4 ≡ idle_state d.0) ⊎ (0 < status_busy d)
    clock_ready (m, true) = inr (omega arith)
    clock_ready (zero, false) = inl refl
    clock_ready (suc m, false) = inl refl

    reset_ready : (d : ℕ × Bool) → (status_register d 0x48200014 % 2 ≡ 1) ⊎ (0 < status_busy d)
    reset_ready (m, true) = inr (omega arith)
    reset_ready (m, false) = inl refl

    soft_ready : (d : ℕ × Bool) → (status_register d 0x48040010 / 1 % 2 ≡ 0) ⊎ (0 < status_busy d)
    soft_ready (m, true) = inr (omega arith)
    soft_ready (m, false) = inl refl

    posted_ready :
        (d : ℕ × Bool) (bit : ℕ)
        → 0 / bit % 2 ≡ 0
        → (status_register d 0x48040048 / bit % 2 ≡ 0) ⊎ (0 < status_busy d)
    posted_ready (m, true) bit e = inr (omega arith)
    posted_ready (m, false) bit e = inl e

pub status_bus-HasRoom : HasRoom bbb status_bus status_busy 1
status_bus-HasRoom = record { settles = ready_or; bounded = bound }
  where
    ready_or :
        (d : ℕ × Bool) → ((status_register d 0x44E09014 / 32 % 2 == 1) ≡ true) ⊎ (0 < status_busy d)
    ready_or (m, true) = inr (omega arith)
    ready_or (m, false) = inl refl

    bound : (d : ℕ × Bool) → status_busy d ≤ 1
    bound (m, true) = omega arith
    bound (m, false) = omega arith
