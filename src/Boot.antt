-- ===== src/Boot.antt =====
-- Parts of the start-up code: the first stack frame and the dump of a process of
-- kernel/proc/process.c, and the messages of kernel/arch/arm/mm/mmu.c.
pub mod Memory
pub mod Processes
pub mod Loaded
pub mod Icache
pub mod Reset
pub mod Main
mod Tests
use refix_os.Common.{
  ℕ, zero, suc, ◌+◌, ◌*◌, ◌-◌, List, [], ◌∷◌, codes, add32, sub32, if◌then◌else◌, ◌==◌, some,
}
use refix_os.Kernel.{Kernel, log}
use refix_os.Mmu.{Board, ram_base, ram_size, va_kernel_base, pgd_entries}
use refix_os.Proc.{Process, TaskState, ready, running, blocked, dead}
use refix_os.Syscall.Pointer.{user_virt_base, user_region_size}
use refix_os.Uart.Format.{num, str}

-- The memory of the kernel stacks, by the address of a word.
abbrev pub Words : Type 0
Words = ℕ → ℕ

abbrev pub store_word : Words → ℕ → ℕ → Words
store_word m a v b = if b == a then v else m b

-- `for (i …) frame[from + i] = 0`, over `left` words.
unfoldable pub zero_words : Words → ℕ → ℕ → Words
zero_words m frame zero = m
zero_words m frame (suc left) = zero_words (store_word m frame 0) (add32 frame 4) left

-- The process and the stacks after `process_build_initial_frame`. `entry` is the address of
-- ret_from_first_entry, in assembly.
unfoldable pub process_build_initial_frame : Words → Process → ℕ → Process × Words
process_build_initial_frame m p entry =
    let top = add32 p.kstack_base p.kstack_size in
    let frame = sub32 top (25 * 4) in
    let m1 = store_word (zero_words m frame 8) (add32 frame (8 * 4)) entry in
    let m2 = zero_words m1 (add32 frame (9 * 4)) 13 in
    let m3 = store_word m2 (add32 frame (22 * 4)) 0 in
    let m4 = store_word m3 (add32 frame (23 * 4)) p.user_entry in
    let m5 = store_word m4 (add32 frame (24 * 4)) 0x10 in
    (
      record p {
        ctx = record (p.ctx) {
          sp_svc = frame;
          lr_svc = 0;
          spsr = 0x10;
          sp_usr = user_virt_base + user_region_size;
          lr_usr = 0;
        };
      },
      m5,
    )

abbrev dump_state : TaskState → List ℕ
dump_state ready = codes "READY"
dump_state running = codes "RUNNING"
dump_state blocked = codes "BLOCKED"
dump_state dead = codes "DEAD"

unfoldable pub process_dump : Kernel → Process → Kernel
process_dump k p =
    let k1 =
      log k (codes "  pid=%u name=%s state=%s\n")
        (num p.pid ∷ str p.name ∷ str (some (dump_state p.state)) ∷ []) in
    let k2 =
      log k1 (codes "    pgd       = 0x%08x (pa 0x%08x)\n") (num p.pgd ∷ num p.pgd_pa ∷ []) in
    let k3 =
      log k2 (codes "    kstack    = 0x%08x..0x%08x\n")
        (num p.kstack_base ∷ num (add32 p.kstack_base p.kstack_size) ∷ []) in
    let k4 =
      log k3 (codes "    user VA   = 0x%08x entry, stack_top 0x%08x\n")
        (num p.user_entry ∷ num p.user_stack_top ∷ []) in
    let k5 = log k4 (codes "    user PA   = 0x%08x\n") (num p.user_phys_base ∷ []) in
    log k5 (codes "    ctx.sp    = 0x%08x spsr=0x%08x\n") (num p.ctx.sp_svc ∷ num p.ctx.spsr ∷ [])

-- `sctlr` and `ttbr0` are the registers it reads, `pgd_va` the address of boot_pgd.
unfoldable pub mmu_print_status : Board → Kernel → ℕ → ℕ → ℕ → Kernel
mmu_print_status b k pgd_va sctlr ttbr0 =
    let k1 =
      log k (codes "[MMU]  boot_pgd @ VA 0x%08x (%u entries, 16 KB aligned)\n")
        (num pgd_va ∷ num pgd_entries ∷ []) in
    let k2 =
      log k1 (codes "[MMU]  identity : 0x%08x .. 0x%08x (drop after boot)\n")
        (num (ram_base b) ∷ num (ram_base b + ram_size b - 1) ∷ []) in
    let k3 =
      log k2 (codes "[MMU]  high VA  : 0x%08x .. 0x%08x -> 0x%08x\n")
        (num va_kernel_base ∷ num (va_kernel_base + ram_size b - 1) ∷ num (ram_base b) ∷ []) in
    let k4 = log k3 (codes "[MMU]  null gu. : 0x00000000 .. 0x000FFFFF (FAULT)\n") [] in
    log k4 (codes "[MMU]  SCTLR=0x%08x TTBR0=0x%08x\n") (num sctlr ∷ num ttbr0 ∷ [])
