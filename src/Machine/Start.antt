-- ===== src/Machine/Start.antt =====
-- From `kmain` to the first process.
use refix_os.Mmu.{Board, Pgd}
use refix_os.Common.{ℕ, ◌≡◌, some, List, arith, refl, ◌<◌, ◌+◌, get_or, subst}
use refix_os.Machine.{Machine, fresh, switching}
use refix_os.Boot.Main.{Booted, Build, finish, zeroed_kernel, exception_init, banner, kmain}
use refix_os.Boot.Loaded.{user_view, Fits, user_view-process_init_all}
use refix_os.Machine.Well.{IsWell}
use refix_os.Irq.Handlers.{irq_timer, irq_uart0}
use refix_os.Boot.Processes.{
  Symbols, UserImage, process_init_all, init_processes, init_process, new_process, Setup,
}
use refix_os.Irq.Core.{timer_irq, uart_rx_irq, Intc, irq_init}
use refix_os.Kernel.{log, Kernel}
use refix_os.Timer.{on_scheduler_tick, timer_set_handler}
use refix_os.Boot.{process_build_initial_frame, Words, mmu_print_status}
use refix_os.Uart.Ring.{ring_start}
use refix_os.Boot.Memory.{Bytes}
use refix_os.Irq.Bus.{Bus}
use refix_os.Irq.Boards.{intc_ops, timer_init, platform_init_devices, uart_init}
use refix_os.Mmu.Isolation.{IsKernelOnly}
use refix_os.Proc.{num_processes}
use refix_os.Syscall.Pointer.{user_region_size, user_virt_base}
use refix_os.Irq.Transmit.{HasRoom}
use refix_os.Machine.Wired.{wired, board_lines, bring_up_lem}
use refix_os.Irq.Console.{transmit, transmit_ends}
use refix_os.Irq.Settled.{Settles, platform_init_devices_ends, irq_init_ends, timer_init_ends}

-- The call of process_first_run: context_switch with no `prev`, to the stack that
-- process_build_initial_frame has built. From here on the memory of a process is what it reaches
-- through its table.
unfoldable pub process_first_run : {D : Type 0} → Board → Booted D → Machine D
process_first_run b r = record {
  intc = r.intc;
  kernel = record (r.setup.kernel) { mem = user_view b r.setup };
  conts = λ i. fresh;
  mode = switching;
}

-- The machine is well formed, its two interrupts and the scheduler's tick are wired, and process 0 is
-- about to run its first instruction.
pub record IsStarted {D : Type 0} (b : Board) (m : Machine D) : Type 0 where
  pub well : IsWell m
  pub timer : m.intc.irq_table (irq_timer b) ≡ some timer_irq
  pub uart : m.intc.irq_table (irq_uart0 b) ≡ some uart_rx_irq
  pub armed : m.kernel.timer.user_handler ≡ some on_scheduler_tick
  pub first : m.kernel.sched.current ≡ some 0
  pub mode : m.mode ≡ switching

-- The zeroed statics, with what has been printed.
abbrev printed : List ℕ → Kernel
printed out = record zeroed_kernel { out = out }

zeroed-finish :
    {D : Type 0} (b : Board) (at : Build) (sym : Symbols) (images : ℕ → UserImage) (boot_pgd : Pgd)
    (ram : Bytes) (pgds : ℕ → Pgd) (stacks : Words) (out : List ℕ) (i : Intc D)
    → IsWell (
        process_first_run b (
          finish b at sym images boot_pgd
            (record { kernel = printed out; pgds = pgds; ram = ram; stacks = stacks })
            i))
unfolding finish process_first_run log process_init_all init_processes init_process new_process
    process_build_initial_frame timer_set_handler ring_start
zeroed-finish b at sym images boot_pgd ram pgds stacks out i = record {
  sound = record {
    sched = record {
      pids = λ j h. ground arith;
      current_in = λ c e. ground arith;
      reader_in = λ c e. ground arith;
      hint_in = λ c e. ground arith;
      one_running = λ j e. ground arith;
      reader_sleeps = λ c e. ground arith;
    };
    ring = omega arith;
  };
  active = (0, refl);
  window = λ j ctx e. ground (arith, e);
  retired = λ j e. ground (arith, e);
}

-- Memory, tables and stacks as the boot loader left them, with the statics zeroed.
abbrev pub power_on : Bytes → (ℕ → Pgd) → Words → Setup
power_on ram pgds stacks = record {
  kernel = zeroed_kernel;
  pgds = pgds;
  ram = ram;
  stacks = stacks;
}

abbrev greeted : Board → Build → Kernel → Kernel
greeted b at k =
    exception_init at (mmu_print_status b (banner b at k) at.boot_pgd at.sctlr at.ttbr0)

messages :
    (b : Board) (at : Build) (k : Kernel) → record k { out = (greeted b at k).out } ≡ greeted b at k
unfolding exception_init mmu_print_status banner log
messages b at k = refl

module _ {D : Type 0} (b : Board) (at : Build) (sym : Symbols) (images : ℕ → UserImage)
    (boot_pgd : Pgd) (s : Setup) (i : Intc D) where
  finish-IsStarted :
      IsWell (process_first_run b (finish b at sym images boot_pgd s i))
      → i.irq_table (irq_timer b) ≡ some timer_irq
      → i.irq_table (irq_uart0 b) ≡ some uart_rx_irq
      → IsStarted b (process_first_run b (finish b at sym images boot_pgd s i))
  unfolding finish process_first_run log timer_set_handler process_init_all
  finish-IsStarted w t u = record {
    well = w;
    timer = t;
    uart = u;
    armed = refl;
    first = refl;
    mode = refl;
  }

  finish_memory :
      IsKernelOnly boot_pgd
      → Fits images
      → (j off : ℕ) → j < num_processes
      → off < user_region_size
      → (process_first_run b (finish b at sym images boot_pgd s i)).kernel.mem j
          (user_virt_base + off)
        ≡ get_or (images j).bytes off 0
  unfolding finish process_first_run
  finish_memory v fits j off h l =
      user_view-process_init_all b sym images boot_pgd s j off v fits h l

module _ {D : Type 0} (bus : Bus D) (fuel : ℕ) (b : Board) where
  -- `kmain` past the waits of the drivers.
  kmain_after_waits :
      (at : Build) (sym : Symbols) (images : ℕ → UserImage) (boot_pgd : Pgd) (ram : Bytes)
      (pgds : ℕ → Pgd) (stacks : Words) (wait : D → ℕ) (limit : ℕ) (i i1 : Intc D) (d1 d2 d3 : D)
      (j off : ℕ)
      → HasRoom b bus wait limit
      → limit < fuel
      → platform_init_devices bus fuel b i.device ≡ some d1
      → transmit bus fuel b zeroed_kernel (greeted b at zeroed_kernel) (uart_init bus fuel b d1)
        ≡ some d3
      → irq_init (intc_ops bus fuel b) (record i { device = d3 }) ≡ some i1
      → timer_init bus fuel b 10000 i1.device ≡ some d2
      → IsKernelOnly boot_pgd
      → Fits images
      → j < num_processes
      → off < user_region_size
      → (r : Booted D) × (kmain bus fuel b at sym images boot_pgd (power_on ram pgds stacks) i
          ≡ some r)
        × IsStarted b (process_first_run b r)
        × ((process_first_run b r).kernel.mem j (user_virt_base + off)
            ≡ get_or (images j).bytes off 0)
  unfolding kmain finish
  kmain_after_waits at sym images boot_pgd ram pgds stacks wait limit i i1 d1 d2 d3 j off room f e
        e0 e1 e2 kernel_only fits h l =
      let i' =
        wired (intc_ops bus fuel b) (irq_timer b) (irq_uart0 b) (record i1 { device = d2 }) in
      let s = record (power_on ram pgds stacks) { kernel = greeted b at zeroed_kernel } in
      let lines = board_lines b (intc_ops bus fuel b) (record i1 { device = d2 }) in
      let r = finish b at sym images boot_pgd s i' in
      let (d4, e4) = transmit_ends bus fuel b wait limit s.kernel r.setup.kernel i'.device room f in
      let last = record i' { device = d4 } in
      (
        record r { intc = last },
        rw e (
            rw e0
              (rw (bring_up_lem bus fuel b (record i { device = d3 }) i1 d2 e1 e2) (rw e4 refl))),
        finish-IsStarted b at sym images boot_pgd s last
            (subst
              (λ k. IsWell (
                process_first_run b (
                  finish b at sym images boot_pgd (record (power_on ram pgds stacks) { kernel = k })
                    last)))
              (messages b at zeroed_kernel)
              (zeroed-finish b at sym images boot_pgd ram pgds stacks
                (greeted b at zeroed_kernel).out last))
            lines.0 lines.1,
        finish_memory b at sym images boot_pgd s last kernel_only fits j off h l,
      )

  -- `kmain` reaches the first process on both boards. The transmitter of the console gets rid of its
  -- bytes, on the BeagleBone Black the clock, the timer and the interrupt controller settle as well,
  -- and the fuel of each wait is above the bound of that. What kmain then starts is well formed, with
  -- the timer and the UART registered and the scheduler's tick armed, and each process finds its
  -- program in its memory. The images are no longer than a megabyte, and the boot table grants user
  -- mode nothing.
  pub kmain_starts :
      (at : Build) (sym : Symbols) (images : ℕ → UserImage) (boot_pgd : Pgd) (ram : Bytes)
      (pgds : ℕ → Pgd) (stacks : Words) (i : Intc D) (mode busy wait : D → ℕ) (limit j off : ℕ)
      → HasRoom b bus wait limit
      → Settles b bus mode busy limit
      → limit < fuel
      → IsKernelOnly boot_pgd
      → Fits images
      → j < num_processes
      → off < user_region_size
      → (r : Booted D) × (kmain bus fuel b at sym images boot_pgd (power_on ram pgds stacks) i
          ≡ some r)
        × IsStarted b (process_first_run b r)
        × ((process_first_run b r).kernel.mem j (user_virt_base + off)
            ≡ get_or (images j).bytes off 0)
  kmain_starts at sym images boot_pgd ram pgds stacks i mode busy wait limit j off room chips f
        kernel_only fits h l =
      let (d1, e1) = platform_init_devices_ends bus mode busy limit b fuel i.device chips f in
      let (d3, e0) =
        transmit_ends bus fuel b wait limit zeroed_kernel (greeted b at zeroed_kernel)
          (uart_init bus fuel b d1) room f in
      let (i1, e2) = irq_init_ends bus mode busy limit b fuel (record i { device = d3 }) chips f in
      let (d2, e3) = timer_init_ends bus mode busy limit b fuel 10000 i1.device chips f in
      kmain_after_waits at sym images boot_pgd ram pgds stacks wait limit i i1 d1 d2 d3 j off room f
        e1 e0 e2 e3 kernel_only fits h l
