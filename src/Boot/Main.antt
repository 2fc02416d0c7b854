-- ===== src/Boot/Main.antt =====
-- kernel/main.c: `kmain`, from the zeroed statics to the first process.
use refix_os.Irq.Core.{Intc, irq_init, irq_register, timer_irq, irq_enable, uart_rx_irq}
use refix_os.Mmu.{Board, qemu, Pgd, bbb, mmu_drop_identity, ram_base, ram_size}
use refix_os.Common.{
  List, replicate, ℕ, none, codes, [], false, ◌∷◌, some, Option, ◌%◌, ◌++◌, ◌+◌, ◌-◌,
}
use refix_os.Irq.Bus.{Bus}
use refix_os.Kernel.{Kernel, log}
use refix_os.Proc.{Process, ready}
use refix_os.Boot.Processes.{Setup, Symbols, UserImage, process_init_all}
use refix_os.Uart.Format.{num, str}
use refix_os.Uart.Ring.{ring_start}
use refix_os.Irq.Output.{and_then}
use refix_os.Irq.Console.{transmit}
use refix_os.Irq.Boards.{intc_ops, platform_init_devices, timer_init, uart_init}
use refix_os.Irq.Handlers.{uart0_base, irq_timer, irq_uart0}
use refix_os.Timer.{timer_set_handler, on_scheduler_tick}
use refix_os.Exception.{masked_name}
use refix_os.Boot.{mmu_print_status}

-- The addresses that the linker chooses, the build stamp, and the registers that the messages show.
pub record Build : Type 0 where
  pub date : List ℕ
  pub time : List ℕ
  pub text_start : ℕ
  pub text_end : ℕ
  pub data_start : ℕ
  pub data_end : ℕ
  pub bss_start : ℕ
  pub bss_end : ℕ
  pub svc_stack_top : ℕ
  pub kmain : ℕ
  pub boot_pgd : ℕ
  pub vectors_start : ℕ
  pub cpsr : ℕ
  pub sctlr : ℕ
  pub ttbr0 : ℕ

-- Two texts with a dash of three bytes, U+2014, between them.
abbrev dashed : List ℕ → List ℕ → List ℕ
dashed s t = s ++ 226 ∷ 128 ∷ 148 ∷ t

abbrev pub platform_name : Board → List ℕ
platform_name qemu = codes "QEMU realview-pb-a8"
platform_name bbb = codes "BeagleBone Black (AM335x)"

abbrev zeroed_process : Process
zeroed_process = record {
  ctx = record { r = replicate 13 0; sp_svc = 0; lr_svc = 0; spsr = 0; sp_usr = 0; lr_usr = 0 };
  pid = 0;
  state = ready;
  name = none;
  pgd = 0;
  pgd_pa = 0;
  kstack_base = 0;
  kstack_size = 0;
  user_entry = 0;
  user_stack_top = 0;
  user_phys_base = 0;
}

-- The statics before `kmain`: start.S has zeroed .bss.
abbrev pub zeroed_kernel : Kernel
zeroed_kernel = record {
  sched = record {
    processes = λ i. zeroed_process;
    current = none;
    need_reschedule = false;
    switch_count = 0;
    blocked_reader = none;
    wake_hint = none;
  };
  ring = ring_start;
  out = [];
  timer = record { tick_count = 0; user_handler = none };
  mem = λ i va. 0;
}

-- The messages up to `mmu_print_status`.
unfoldable pub banner : Board → Build → Kernel → Kernel
banner b at k =
    let rule = codes "================================================\n" in
    let k1 = log (log k (codes "\n") []) rule [] in
    let k2 = log k1 (dashed (codes "  RingNova ") (codes " ARMv7-A bare-metal kernel\n")) [] in
    let k3 = log k2 (codes "  Built %s %s\n") (str (some at.date) ∷ str (some at.time) ∷ []) in
    let k4 = log (log k3 rule []) (codes "[UART] init done @ %p\n") (num (uart0_base b) ∷ []) in
    let k5 = log k4 (codes "[BOOT] platform : %s\n") (str (some (platform_name b)) ∷ []) in
    let k6 =
      log k5 (dashed (codes "[BOOT] .text    : %p ") (codes " %p\n"))
        (num at.text_start ∷ num at.text_end ∷ []) in
    let k7 =
      log k6 (dashed (codes "[BOOT] .data    : %p ") (codes " %p\n"))
        (num at.data_start ∷ num at.data_end ∷ []) in
    let k8 =
      log k7 (dashed (codes "[BOOT] .bss     : %p ") (codes " %p\n"))
        (num at.bss_start ∷ num at.bss_end ∷ []) in
    let k9 = log k8 (codes "[BOOT] SVC stack: %p\n") (num at.svc_stack_top ∷ []) in
    let k10 = log k9 (codes "[BOOT] &kmain   : %p  (expect 0xC01xxxxx)\n") (num at.kmain ∷ []) in
    log k10 (codes "[BOOT] CPSR     : %p (mode=%x, IRQ=%s, FIQ=%s)\n") (
      num at.cpsr
      ∷ num (at.cpsr % 32)
      ∷ str (some (masked_name at.cpsr 7))
      ∷ str (some (masked_name at.cpsr 6))
      ∷ [])

-- What `exception_init` prints; it writes the register VBAR.
unfoldable pub exception_init : Build → Kernel → Kernel
exception_init at k =
    log k (codes "[EXCP] vector table installed @ 0x%08x\n") (num at.vectors_start ∷ [])

-- The state in which `process_first_run` finds the machine.
pub record Booted (D : Type 0) : Type 0 where
  pub intc : Intc D
  pub setup : Setup
  pub boot_pgd : Pgd

module _ {D : Type 0} (b : Board) (at : Build) (sym : Symbols) (images : ℕ → UserImage)
    (boot_pgd : Pgd) where
  -- The end of `kmain`.
  unfoldable pub finish : Setup → Intc D → Booted D
  finish s i =
      let done = process_init_all b sym images boot_pgd s in
      let k1 =
        log done.kernel
          (dashed (codes "[MMU]  identity dropped ") (codes " PA 0x%08x..0x%08x now faults\n"))
          (num (ram_base b) ∷ num (ram_base b + ram_size b - 1) ∷ []) in
      let k = record k1 { timer = timer_set_handler k1.timer on_scheduler_tick } in
      let first = k.sched.processes 0 in
      record {
        intc = i;
        setup = record done {
          kernel =
              log k
                (dashed (codes "[BOOT] boot complete ")
                  (codes " entering user mode pid=%u (USR @ 0x%08x)\n"))
                (num first.pid ∷ num first.user_entry ∷ []);
        };
        boot_pgd = mmu_drop_identity b boot_pgd;
      }

module _ {D : Type 0} (bus : Bus D) (fuel : ℕ) (b : Board) where
  -- `irq_init`, `timer_init(10000)`, and the two lines registered and enabled.
  unfoldable pub bring_up : Intc D → Option (Intc D)
  bring_up i =
      let ops = intc_ops bus fuel b in
      and_then (irq_init ops i) (λ i1. and_then (timer_init bus fuel b 10000 i1.device) (λ d.
        let i2 = irq_register ops (record i1 { device = d }) (irq_timer b) timer_irq in
        let i3 = irq_register ops (irq_enable ops i2 (irq_timer b)) (irq_uart0 b) uart_rx_irq in
        some (irq_enable ops i3 (irq_uart0 b))))

module _ {D : Type 0} (bus : Bus D) (fuel : ℕ) (b : Board) (at : Build) (sym : Symbols)
    (images : ℕ → UserImage) (boot_pgd : Pgd) where
  -- `s` has the zeroed statics of the kernel. The result is `none` when a loop still polls a chip at
  -- the end of its fuel, the transmitter's with each byte of the messages included. The messages
  -- go out in two parts, since no step between the messages of a part touches a device.
  unfoldable pub kmain : Setup → Intc D → Option (Booted D)
  kmain s i = and_then (platform_init_devices bus fuel b i.device) (λ d.
      let k1 = banner b at s.kernel in
      let k2 = mmu_print_status b k1 at.boot_pgd at.sctlr at.ttbr0 in
      let k3 = exception_init at k2 in
      and_then (transmit bus fuel b s.kernel k3 (uart_init bus fuel b d)) (λ d1.
        and_then (bring_up bus fuel b (record i { device = d1 })) (λ i'.
          let r = finish b at sym images boot_pgd (record s { kernel = k3 }) i' in
          and_then (transmit bus fuel b k3 r.setup.kernel i'.device)
            (λ d2. some (record r { intc = record i' { device = d2 } })))))
