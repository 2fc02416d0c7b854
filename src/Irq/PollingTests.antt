-- ===== src/Irq/PollingTests.antt =====
-- The drivers of the timers, the GIC and the UARTs on concrete devices.
use refix_os.Common.{
  ℕ, ◌≡◌, ◌≤◌, ◌<◌, ◌⊎◌, inl, inr, refl, List, [], ◌∷◌, some, Bool, true, false, arith, ◌||◌,
  if◌then◌else◌, ◌&&◌,
}
use refix_os.Irq.Acknowledge.{gicv1_eoi-get_active}
use refix_os.Irq.Bus.{Bus}
use refix_os.Irq.Gic.{gicv1_get_active, gicv1_eoi}
use refix_os.Irq.Polling.{IsSettling, dmtimer_init_ends}
use refix_os.Irq.Timers.{dmtimer_init}
use refix_os.Irq.Output.{console_puts, putc_of}
use refix_os.Irq.Transmit.{IsTransmitter, console_puts_sends}
use refix_os.Mmu.{qemu}
use refix_os.Common.{◌/◌, ◌%◌, ◌==◌}
use refix_os.Uart.Format.Lines.{crlf}

-- The first load of a status register after a store shows every bit, the next none; the other
-- registers read 6.
pub record Countdown : Type 0 where
  log : List (ℕ × ℕ)
  pending : Bool

abbrev is_status : ℕ → Bool
is_status a = a == 0x48040010 || a == 0x48040048

-- What is stored to these while a bit shows is lost.
abbrev is_posted : ℕ → Bool
is_posted a = a == 0x48040038 || a == 0x4804003C || a == 0x48040040 || a == 0x48040054

abbrev answered : Countdown → Bool → ℕ × Countdown
answered d true = (if d.pending then 7 else 0, record d { pending = false })
answered d false = (6, d)

abbrev read : Countdown → ℕ → ℕ × Countdown
read d a = answered d (is_status a)

abbrev timer_bus : Bus Countdown
timer_bus = record {
  load = λ d a. read d a;
  store = λ d a v.
      if is_posted a && d.pending then d else record { log = (a, v) ∷ d.log; pending = true };
  store8 = λ d a v. d;
}

abbrev waits : Bool → ℕ
waits true = 1
waits false = 0

timer_bus-IsSettling : IsSettling timer_bus 0x48040000 (λ d. d.log) (λ d. waits d.pending) 1
timer_bus-IsSettling = record {
  keeps = λ d a. log_kept d (is_status a);
  resets = λ d v. refl;
  status = λ d v. refl;
  enable = λ d v. refl;
  mode = λ d v c. refl;
  control = λ d v c. refl;
  counter = λ d v c. refl;
  reload = λ d v c. refl;
  reset_done = λ d. shown 1 d d.pending refl;
  control_posted = λ d. shown 1 d d.pending refl;
  counter_posted = λ d. shown 2 d d.pending refl;
  reload_posted = λ d. shown 4 d d.pending refl;
  bounded = λ d. one d.pending;
}
  where
    log_kept : (d : Countdown) (b : Bool) → (answered d b).1.log ≡ d.log
    log_kept d true = refl
    log_kept d false = refl

    shown :
        (bit : ℕ) (d : Countdown) (b : Bool)
        → (0 / bit % 2 == 1) ≡ false
        → (((if b then 7 else 0) / bit % 2 == 1) ≡ false) ⊎ (0 < waits b)
    shown bit d true e = inr (omega arith)
    shown bit d false e = inl e

    one : (b : Bool) → waits b ≤ 1
    one true = omega arith
    one false = omega arith

dmtimer_init_ends_example :
    (d' : Countdown) × (dmtimer_init timer_bus 2 0x48040000 24000000 10000
        (record { log = []; pending = true })
      ≡ some d')
    × (d'.log
        ≡ (0x48040038, 3)
          ∷ (0x4804002C, 2)
          ∷ (0x4804003C, 0xFFFC5680)
          ∷ (0x48040040, 0xFFFC5680)
          ∷ (0x48040028, 7)
          ∷ (0x48040038, 0)
          ∷ (0x48040054, 4)
          ∷ (0x48040010, 1)
          ∷ [])
dmtimer_init_ends_example =
    dmtimer_init_ends timer_bus 0x48040000 (λ d. d.log) (λ d. waits d.pending) 1
      timer_bus-IsSettling 2 24000000 10000 (record { log = []; pending = true }) (omega arith)

-- An acknowledge register that reads 36, and a device that keeps the last store.
abbrev ack_bus : Bus (ℕ × ℕ)
ack_bus = record { load = λ d a. (36, d); store = λ d a v. (a, v); store8 = λ d a v. d }

gicv1_eoi-get_active_example :
    gicv1_eoi ack_bus 0x1E001000 0x1E000000
      (gicv1_get_active ack_bus 0x1E001000 0x1E000000 (0, 0)).1
      (gicv1_get_active ack_bus 0x1E001000 0x1E000000 (0, 0)).0
    ≡ (0x1E000010, 36)
gicv1_eoi-get_active_example = gicv1_eoi-get_active ack_bus 0x1E001000 0x1E000000 (0, 0)

-- A transmitter that is busy once after each byte, when bit 5 of the flags is set, and that loses a
-- byte which comes at that time.
pub record Line : Type 0 where
  bytes : List ℕ
  busy : Bool

abbrev flags : Line → Bool → ℕ × Line
flags d b = (if b then 32 else 0, record d { busy = false })

abbrev line_bus : Bus Line
line_bus = record {
  load = λ d a. flags d d.busy;
  store = λ d a v. if d.busy then d else record { bytes = v ∷ d.bytes; busy = true };
  store8 = λ d a v. d;
}

line_bus-IsTransmitter : IsTransmitter qemu line_bus (λ d. d.bytes) (λ d. waits d.busy) 1
line_bus-IsTransmitter = record {
  room = record { settles = λ d. ready_or d d.busy; bounded = λ d. one d.busy };
  keeps = λ d. kept d d.busy;
  sends = λ d c r. accepted d d.busy c r;
}
  where
    kept : (d : Line) (b : Bool) → (flags d b).1.bytes ≡ d.bytes
    kept d b = refl

    accepted :
        (d : Line) (b : Bool) (c : ℕ)
        → ((flags d b).0 / 32 % 2 == 1) ≡ false
        → (line_bus.store (flags d b).1 0x10009000 c).bytes ≡ c ∷ d.bytes
    accepted d b c r = refl

    ready_or : (d : Line) (b : Bool) → (((flags d b).0 / 32 % 2 == 1) ≡ false) ⊎ (0 < waits b)
    ready_or d true = inr (omega arith)
    ready_or d false = inl refl

    one : (b : Bool) → waits b ≤ 1
    one true = omega arith
    one false = omega arith

console_puts_sends_example :
    (d' : Line) × (console_puts
        (putc_of qemu line_bus 2)
        (record { bytes = []; busy = false })
        (72 ∷ 105 ∷ 10 ∷ [])
      ≡ some d')
    × (d'.bytes ≡ 10 ∷ 13 ∷ 105 ∷ 72 ∷ [])
unfolding crlf
console_puts_sends_example =
    console_puts_sends qemu line_bus (λ d. d.bytes) (λ d. waits d.busy) 1 2 (72 ∷ 105 ∷ 10 ∷ [])
      (record { bytes = []; busy = false }) line_bus-IsTransmitter (omega arith)
