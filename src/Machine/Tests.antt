-- ===== src/Machine/Tests.antt =====
-- Steps of concrete machines.
use refix_os.Samples.Chips.{
  wired, reports, pl011_bus, low_bytes, pl011_bus-IsPl011, status_bus, status_mode, status_busy,
  status_bus-IsSettled, status_bus-HasRoom, flag_register,
}
use refix_os.Machine.Delivery.{IsDelivered, typed-IsDelivered}
use refix_os.Machine.{interrupt_at, interrupts}
use refix_os.Samples.{reading, reading-IsSound}
use refix_os.Irq.Core.{IntcOps, Intc, max_irqs}
use refix_os.Kernel.{Kernel}
use refix_os.Machine.{
  Machine, trap, Cont, user, waiting, fault, dying, fresh, onwards, faults, traps, done,
}
use refix_os.Boot.Main.{Build, Booted, kmain}
use refix_os.Syscall.Dispatch.{ExceptionContext, reg}
use refix_os.Common.{
  ℕ, ◌∷◌, none, ◌≡◌, codes, arith, some, refl, if◌then◌else◌, ◌+◌, [], ◌==◌, ◌<◌, u32_mod, false,
  get_or-All, subst, suc, zero, List, Bool, true, ◌/◌, ◌%◌, inl,
}
use refix_os.Boot.Processes.{Symbols, UserImage}
use refix_os.Machine.Well.{IsWell}
use refix_os.Irq.Bus.{Bus}
use refix_os.Kernel.Sound.{IsSound}
use refix_os.Exception.{fault_from_user}
use refix_os.Sched.History.{IsRetired}
use refix_os.Samples.{kernel_of_others, entry}
use refix_os.Kernel.Safe.{IsConfined}
use refix_os.Proc.{ready, running, dead}
use refix_os.Machine.Calls.{InWindow}
use refix_os.Exception.Faults.{data_abort}
use refix_os.Machine.Isolation.{retired_for_good, only_current_changes}
use refix_os.Mmu.{qemu, bbb}
use refix_os.Machine.Start.{power_on, IsStarted, process_first_run, kmain_starts}
use refix_os.Syscall.Pointer.{user_virt_base}
use refix_os.Irq.Transmit.{HasRoom}
use refix_os.Irq.Console.{transmit}
use refix_os.Machine.Onwards.{IsGoing, Step-IsGoing}

-- A controller that reports nothing, in front of no device.
abbrev silent : Intc (Unit {0})
silent = record { device = tt; irq_table = λ n. none }

abbrev silent_ops : IntcOps (Unit {0})
silent_ops = record {
  init = λ d. some d;
  enable_line = λ d irq. d;
  disable_line = λ d irq. d;
  get_active = λ d. (max_irqs, d);
  eoi = λ d irq. d;
}

abbrev empty_bus : Bus (Unit {0})
empty_bus = record { load = λ d a. (0, d); store = λ d a v. d; store8 = λ d a v. d }

-- The registers at a call of sys_read, and at one of sys_ps.
abbrev reads : ExceptionContext
reads = record {
  spsr = 16;
  r = 0 ∷ 0x40000100 ∷ 16 ∷ 0 ∷ 0 ∷ 0 ∷ 0 ∷ 4 ∷ 0 ∷ 0 ∷ 0 ∷ 0 ∷ 0 ∷ [];
  lr = 0x40000010;
}

abbrev lists : ExceptionContext
lists = record {
  spsr = 16;
  r = 0x40000100 ∷ 64 ∷ 0 ∷ 0 ∷ 0 ∷ 0 ∷ 0 ∷ 5 ∷ 0 ∷ 0 ∷ 0 ∷ 0 ∷ 0 ∷ [];
  lr = 0x40000010;
}

-- Process 1 runs, process 0 is READY and process 2 DEAD.
abbrev survivors : Kernel
survivors = record (kernel_of_others ready) {
  sched = record {
    processes = λ i. entry i (if i == 1 then running else if i == 2 then dead else ready);
    current = some 1;
    need_reschedule = false;
    switch_count = 9;
    blocked_reader = none;
    wake_hint = none;
  };
}

survivors-IsSound : IsSound survivors
survivors-IsSound = record {
  sched = record {
    pids = λ i h. refl;
    current_in = λ c e. ground arith;
    reader_in = λ c e. ground arith;
    hint_in = λ c e. ground arith;
    one_running = λ i e. ground arith;
    reader_sleeps = λ c e. ground arith;
  };
  ring = omega arith;
}

-- Process 0 was switched away from in sys_read, and process 2 in user_fault_kill.
abbrev conts : ℕ → Cont
conts i = if i == 0 then waiting reads else if i == 2 then dying else fresh

abbrev machine : Machine (Unit {0})
machine = record { intc = silent; kernel = survivors; conts = conts; mode = user }

reads_window : (i : ℕ) (ctx : ExceptionContext) → conts i ≡ waiting ctx → InWindow ctx
reads_window zero ctx e = subst Windowed e (omega arith, omega arith)
  where
    Windowed : Cont → Type 0
    Windowed (waiting c) = InWindow c
    Windowed _ = Unit
reads_window (suc i) ctx e = absurd (ground (arith, e))

machine-IsWell : IsWell machine
machine-IsWell = record {
  sound = survivors-IsSound;
  active = (1, refl);
  window = reads_window;
  retired = λ i e. record { gone = ground (arith, e); off = λ h. ground (arith, e, h) };
}

only_current_changes_example :
    IsWell (trap 1 lists machine) × IsConfined 1 survivors (trap 1 lists machine).kernel
only_current_changes_example =
    only_current_changes empty_bus silent_ops qemu 1 machine (trap 1 lists machine)
      (traps machine 1 lists refl small) machine-IsWell refl
  where
    small : (i : ℕ) → reg lists i < u32_mod
    small i = get_or-All (λ v. v < u32_mod) lists.r i 0 (omega arith) (omega arith)

retired_for_good_example :
    IsRetired (fault (data_abort 5 0) reads machine).kernel.sched 2
    × ((va : ℕ) → (fault (data_abort 5 0) reads machine).kernel.mem 2 va ≡ 0)
unfolding fault_from_user
retired_for_good_example =
    retired_for_good empty_bus silent_ops qemu machine (fault (data_abort 5 0) reads machine) 2
      (onwards machine _ _ (faults machine (data_abort 5 0) reads refl refl) (done _))
      machine-IsWell (record { gone = refl; off = λ h. ground (arith, h) })

abbrev build : Build
build = record {
  date = codes "Jan  1 2026";
  time = codes "00:00:00";
  text_start = 0xC0101000;
  text_end = 0xC0108000;
  data_start = 0xC0109000;
  data_end = 0xC010A000;
  bss_start = 0xC010A000;
  bss_end = 0xC0128000;
  svc_stack_top = 0xC012A000;
  kmain = 0xC0101400;
  boot_pgd = 0xC010C000;
  vectors_start = 0xC0100000;
  cpsr = 0xD3;
  sctlr = 0xC5187D;
  ttbr0 = 0x7010C000;
}

abbrev programs : ℕ → UserImage
programs i = record { name = codes "app"; bytes = (10 + i) ∷ 20 ∷ 30 ∷ [] }

abbrev symbols : Symbols
symbols = record {
  proc_pgd = 0xC0110000;
  proc_kstack = 0xC0120000;
  ret_from_first_entry = 0xC0100400;
}

-- On the BeagleBone Black every status register is busy once after a store.
kmain_starts_example :
    (r : Booted (ℕ × Bool)) × (kmain status_bus 2 bbb build symbols programs
        (λ j. 0)
        (power_on (λ a. 255) (λ i j. 0) (λ a. 0))
        (record { device = (5, true); irq_table = λ n. none })
      ≡ some r)
    × IsStarted bbb (process_first_run bbb r)
    × ((process_first_run bbb r).kernel.mem 2 (user_virt_base + 2) ≡ 30)
kmain_starts_example =
    kmain_starts status_bus 2 bbb build symbols programs (λ j. 0) (λ a. 255) (λ i j. 0) (λ a. 0)
      (record { device = (5, true); irq_table = λ n. none }) status_mode status_busy status_busy 1 2
      2 status_bus-HasRoom status_bus-IsSettled (omega arith) (λ j. omega arith)
      (λ i h. omega arith) (omega arith) (omega arith)

-- Process 2 sleeps in sys_read, and the other two run or may run.
abbrev typing : Machine (List ℕ)
typing = record {
  intc = wired (112 ∷ 115 ∷ []);
  kernel = reading;
  conts = λ i. if i == 2 then waiting reads else fresh;
  mode = user;
}

typing_window : (i : ℕ) (ctx : ExceptionContext) → typing.conts i ≡ waiting ctx → InWindow ctx
typing_window zero ctx e = absurd (ground (arith, e))
typing_window (suc zero) ctx e = absurd (ground (arith, e))
typing_window (suc (suc zero)) ctx e = subst Windowed e (omega arith, omega arith)
  where
    Windowed : Cont → Type 0
    Windowed (waiting c) = InWindow c
    Windowed _ = Unit
typing_window (suc (suc (suc i))) ctx e = absurd (ground (arith, e))

typing-IsWell : IsWell typing
typing-IsWell = record {
  sound = reading-IsSound;
  active = (1, refl);
  window = typing_window;
  retired = λ i e. absurd (ground (arith, e));
}

-- The two bytes on the PL011 end up in the buffer of process 2.
typed-IsDelivered_example :
    IsDelivered 17 reads 2
      (112 ∷ 115 ∷ [])
      (interrupt_at pl011_bus (reports 44) qemu 3 typing.intc.device typing)
typed-IsDelivered_example =
    typed-IsDelivered pl011_bus (reports 44) qemu 3 17 typing (112 ∷ 115 ∷ []) (112 ∷ 115 ∷ [])
      low_bytes 1 2 reads typing-IsWell pl011_bus-IsPl011 refl refl refl refl refl (omega arith)
      refl refl (λ e. ground (arith, e)) (omega arith) (omega arith) (omega arith)

-- The PL011 of the test always has room to send.
pl011_bus-HasRoom : HasRoom qemu pl011_bus (λ d. 0) 0
pl011_bus-HasRoom = record { settles = λ d. inl (ready_to_send d); bounded = λ d. omega arith }
  where
    ready_to_send : (d : List ℕ) → (flag_register d / 32 % 2 == 1) ≡ false
    ready_to_send [] = refl
    ready_to_send (c ∷ d) = refl

Step-IsGoing_example :
    let next = interrupt_at pl011_bus (reports 44) qemu 3 (112 ∷ 115 ∷ []) typing in
    IsGoing next.mode
    × (d : List ℕ) × (transmit pl011_bus 1 qemu typing.kernel next.kernel [] ≡ some d)
Step-IsGoing_example =
    let next = interrupt_at pl011_bus (reports 44) qemu 3 (112 ∷ 115 ∷ []) typing in
    Step-IsGoing pl011_bus (reports 44) qemu low_bytes (λ d. 0) 0 1 1 typing next []
      (interrupts typing 3 (112 ∷ 115 ∷ []) refl) pl011_bus-IsPl011 pl011_bus-HasRoom (omega arith)
      typing-IsWell refl
      (record { other = 0; exists = omega arith; differs = omega arith; runs = refl }) (omega arith)
