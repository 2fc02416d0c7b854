-- ===== src/Irq/Tests.antt =====
-- Interrupts from concrete chips.
use refix_os.Uart.Ring.Refine.{contents}
use refix_os.Uart.Ring.Queue.{capacity}
use refix_os.Common.{
  take, ◌++◌, ℕ, ◌+◌, ◌/◌, ◌%◌, ◌≡◌, ◌≢◌, ◌<◌, refl, List, [], ◌∷◌, some, ◌==◌, Bool, true, false,
  not, ◌&&◌, ◌||◌, if◌then◌else◌, arith, bit,
}
use refix_os.Exception.{switched}
use refix_os.Irq.Bus.{Bus}
use refix_os.Irq.Core.{Intc, max_irqs}
use refix_os.Irq.Gic.{gicd_isenabler, gicd_icenabler}
use refix_os.Irq.Lines.{IsGic}
use refix_os.Irq.Preempt.{interrupt, timer_preempts, key_wakes}
use refix_os.Kernel.{Kernel}
use refix_os.Mmu.{qemu}
use refix_os.Proc.{ready}
use refix_os.Samples.{kernel_of_others, busy-IsSound, reading, reading-IsSound}
use refix_os.Sched.{is_runnable, state_of}
use refix_os.Samples.Chips.{wired}
use refix_os.Samples.Chips.{pl011_bus, reports, low_bytes, pl011_bus-IsPl011}

-- A bus with no device on it.
abbrev empty_bus : Bus (Unit {0})
empty_bus = record { load = λ d a. (0, d); store = λ d a v. d; store8 = λ d a v. d }

timer_preempts_example :
    (i' : Intc Unit) × (k' : Kernel) × (n : ℕ) × (interrupt empty_bus 0
        (reports 36)
        qemu
        (wired tt)
        (kernel_of_others ready)
      ≡ some (i', switched k' (1, n)))
    × (n ≢ 1)
    × (is_runnable (state_of (kernel_of_others ready).sched n) ≡ true)
    × (k'.sched.current ≡ some n)
timer_preempts_example =
    timer_preempts empty_bus 0 (reports 36) qemu (wired tt) (kernel_of_others ready) tt 1 0
      busy-IsSound refl refl refl refl (omega arith) (omega arith) refl

key_wakes_example :
    (i' : Intc (List ℕ)) × (k' : Kernel) × (interrupt pl011_bus 3
        (reports 44)
        qemu
        (wired (112 ∷ 115 ∷ []))
        reading
      ≡ some (i', switched k' (1, 2)))
    × (contents k'.ring ≡ take capacity (contents reading.ring ++ 112 ∷ 115 ∷ []))
    × (k'.sched.current ≡ some 2)
key_wakes_example =
    key_wakes pl011_bus 3 (reports 44) qemu (wired (112 ∷ 115 ∷ [])) reading (112 ∷ 115 ∷ [])
      low_bytes 1 2 reading-IsSound pl011_bus-IsPl011 (omega arith) refl refl refl refl refl
      (omega arith)

-- A GIC distributor at address 0 whose state is the set of its enabled lines.
abbrev written_bit : Bool → Bool → ℕ → ℕ → Bool
written_bit on b a q =
    if a == gicd_isenabler q then on || b else if a == gicd_icenabler q then on && not b else on

set_case :
    (on b : Bool) (w q : ℕ)
    → w < 4
    → q < 4
    → written_bit on b (0 + gicd_isenabler w) q ≡ (on || ((q == w) && b))
set_case true b w q h l = ground arith
set_case false true w q h l = ground arith
set_case false false w q h l = ground arith

clear_case :
    (on b : Bool) (w q : ℕ)
    → w < 4
    → q < 4
    → written_bit on b (0 + gicd_icenabler w) q ≡ (on && not ((q == w) && b))
clear_case false b w q h l = ground arith
clear_case true true w q h l = ground arith
clear_case true false w q h l = ground arith

abbrev written : (ℕ → Bool) → ℕ → ℕ → ℕ → Bool
written d a v n = written_bit (d n) (bit v (n % 32)) a (n / 32)

abbrev gic_bus : Bus (ℕ → Bool)
gic_bus = record { load = λ d a. (0, d); store = written; store8 = λ d a v. d }

gic_bus-IsGic : IsGic gic_bus 0 (λ d n. d n)
gic_bus-IsGic = record { set_word = sets; clear_word = clears }
  where
    sets :
        (d : ℕ → Bool) (w v n : ℕ)
        → w < 4
        → n < max_irqs
        → written d (0 + gicd_isenabler w) v n ≡ (d n || ((n / 32 == w) && bit v (n % 32)))
    sets d w v n h l = set_case (d n) (bit v (n % 32)) w (n / 32) h (omega arith)

    clears :
        (d : ℕ → Bool) (w v n : ℕ)
        → w < 4
        → n < max_irqs
        → written d (0 + gicd_icenabler w) v n ≡ (d n && not ((n / 32 == w) && bit v (n % 32)))
    clears d w v n h l = clear_case (d n) (bit v (n % 32)) w (n / 32) h (omega arith)
