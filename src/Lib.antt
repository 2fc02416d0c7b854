-- ===== src/Lib.antt =====
-- RefixOS: a model of the kernel and of its user programs, and what they guarantee.
--
-- RefixOS runs three user processes on one ARMv7-A core. The timer interrupt asks for a new
-- scheduling decision, the UART interrupt fills a receive ring and wakes a blocked reader, and an SVC
-- instruction enters a table of eight system calls. Interrupts are masked in the kernel, so a handler
-- runs to its end or to a call of `context_switch`. The model has one function per C function: state
-- is passed explicitly, loops are structural recursion, and a C null pointer is `none`.
--
--   Uart.Ring     kernel/drivers/uart/uart_core.c, the receive ring
--   Uart.Format   kernel/drivers/uart/uart_core.c, the console output and uart_printf
--   Timer         kernel/drivers/timer/timer_core.c
--   Proc          kernel/include/proc.h, the process control block
--   Sched         kernel/sched/scheduler.c, over the process table
--   Mmu           kernel/arch/arm/mm/pgtable.c and kernel/platform/*/periph_map.c, the page tables
--   Mmu.Startup   mmu_init of kernel/arch/arm/mm/mmu.c, with mmu_enable.S and start.S around it
--   Kernel        the statics of the parts in one record, the console output and user memory
--   Syscall       kernel/syscall/syscall.c, a child module per handler and Dispatch for the table
--   Exception     kernel/arch/arm/exception/exception_handlers.c, the handlers of all exceptions,
--                 and the table of vectors.S
--   Irq           kernel/drivers/intc/intc_core.c, the chip drivers of kernel/drivers over a bus of
--                 registers (uart/pl011.c, uart/ns16550.c, timer/sp804.c, timer/dmtimer.c,
--                 intc/gicv1.c, intc/am335x_intc.c), and the wiring of kernel/platform/*/board.c
--   User.Ulib     user/libc/ulib.c
--   User.Shell    user/apps/shell/shell.c, a round of its loop as the function `key`
--   User.Calls    user/libc/syscall.h, the wrappers of the system calls
--   User.Start    user/crt0.S
--   User.Counter  user/apps/counter/counter.c and user/apps/runaway/runaway.c
--   Boot          kernel/proc/process.c with process_init_all and icache_sync, kernel/main.c,
--                 kernel/arch/arm/boot/start.S, and the messages of kernel/arch/arm/mm/mmu.c
--   Machine       all handlers as steps of one machine, with kernel/arch/arm/proc/context_switch.S
--                 between them as the continuation of each process
--   Context       kernel/arch/arm/proc/context_switch.S and kernel/arch/arm/exception/
--                 exception_entry.S, with registers and stacks
--   Samples       concrete kernels and chips for the tests
--   Common        lists, 32-bit words and the names the parts share
--
-- Numbers. A 32-bit value is a natural number below 2 ^ 32, and each operation that can wrap around
-- says so (`add32`). Arguments and results of system calls that are `long` in C are their bit patterns.
--
-- Switches. A function that reaches `context_switch(prev, next)` returns that pair of process indices,
-- since what runs next is another process. A system call then is `parked`: the caller continues when a
-- later switch picks it. `sys_read` that waits with nobody to switch to spins, and is `spinning`.
--
-- Fuel. `sys_read` reads with fuel, a round per unit: fuel above the requested length is enough,
-- which is proved where a byte count is promised. `uart_printf` takes a step for each format byte at
-- most, so the length of the format is its fuel. `uart_print_dec` has ten rounds, the size of its buffer.
--
-- Devices. A driver works on a bus, a load and a store over any type of device states; what a theorem
-- needs of a chip is a named record of its documented behaviour, met by a concrete chip in the tests.
-- Loops that poll a chip have fuel and give `none` when it is used up. Fuel above the number of times
-- that the chip can still say it is busy is enough.
--
-- Console. The bytes that reach `console->ops->putc` are collected in `Kernel.out`, and `Irq.Output` has
-- uart_putc and uart_puts over the drivers with their waits for the transmitter. `Boot.Main.kmain` sends
-- its messages through the driver in the order of its device accesses. The handlers only collect what
-- they print; `Irq.Console.transmit` is the way of those bytes through the driver.
--
-- Stacks. `Context` has context_switch and the entry code itself, with their registers and the words
-- of memory; the other parts see their calls. The compiled C code in between is not modelled: that it
-- leaves the frames above its own alone is a hypothesis where it matters.
--
-- Steps. `Machine.Step` is a store of the running process, a trap, a fault, an interrupt or the
-- continuation after a switch. A process that is not running has a continuation, which says in which
-- handler its kernel stack waits. Devices may change in any way between two steps. `Sched.Turns`
-- has the entries into the kernel as the scheduler sees them.
--
-- Start-up. `Boot.Reset` is start.S up to the call of kmain, `Boot.Main` is kmain. What the
-- compiled mmu_init leaves on the SVC stack is a parameter of Boot.Reset. The loop over the BSS has
-- fuel, a unit for each word and one more. The loop of icache_sync has a unit for each line and one more, and
-- what its instructions do to the caches is in `Boot.Icache`. That model stands beside process_init_all, whose
-- memory has no caches.
--
-- Not modelled: the FIQ entry and the ends of start.S and crt0.S, which are endless loops, and how the
-- linker scripts place the sections.
-- Outside Boot.Icache, cache, TLB and barrier instructions have no effect on the state that is modelled.
pub mod Boot
pub mod Common
pub mod Uart
pub mod User
pub mod Proc
pub mod Samples
pub mod Sched
pub mod Mmu
pub mod Timer
pub mod Exception
pub mod Irq
pub mod Kernel
pub mod Syscall
pub mod Machine
pub mod Context
