-- ===== src/Boot/Processes.antt =====
-- `process_init_all` of kernel/proc/process.c. The addresses that the linker chooses and the images of
-- the programs, which the assembler includes, are arguments.
use refix_os.Common.{
  ℕ, zero, suc, ◌+◌, ◌-◌, ◌*◌, List, [], ◌∷◌, codes, replicate, length, some, add32, sub32,
  if◌then◌else◌, ◌==◌,
}
use refix_os.Boot.{Words, process_build_initial_frame}
use refix_os.Boot.Memory.{Bytes, kmemset, kmemcpy}
use refix_os.Kernel.{Kernel, log}
use refix_os.Mmu.{Board, Pgd, ram_base, pgtable_build_for_proc}
use refix_os.Proc.{Process, ready, num_processes, update}
use refix_os.Syscall.Pointer.{user_virt_base, user_region_size}
use refix_os.Uart.Format.{num, str}

abbrev pub kstack_size : ℕ
kstack_size = 8192

abbrev pub phys_offset : Board → ℕ
phys_offset b = 0xC0000000 - ram_base b

-- `USER_PHYS_BASE + i * USER_PHYS_STRIDE`
abbrev pub slot : Board → ℕ → ℕ
slot b i = ram_base b + 0x00200000 + i * 0x00100000

pub record Symbols : Type 0 where
  pub proc_pgd : ℕ
  pub proc_kstack : ℕ
  pub ret_from_first_entry : ℕ

-- `user_image_t`, with the bytes from `start` to `end`.
pub record UserImage : Type 0 where
  pub name : List ℕ
  pub bytes : List ℕ

-- The kernel with the tables, the memory of the user slots by kernel address, and the kernel stacks.
pub record Setup : Type 0 where
  pub kernel : Kernel
  pub pgds : ℕ → Pgd
  pub ram : Bytes
  pub stacks : Words

-- A process control block after `kmemset` and the assignments, for a table entry at `i`.
unfoldable pub new_process : Board → Symbols → UserImage → ℕ → Process
new_process b sym img i = record {
  ctx = record { r = replicate 13 0; sp_svc = 0; lr_svc = 0; spsr = 0; sp_usr = 0; lr_usr = 0 };
  pid = i;
  state = ready;
  name = some img.name;
  pgd = sym.proc_pgd + i * 16384;
  pgd_pa = sub32 (sym.proc_pgd + i * 16384) (phys_offset b);
  kstack_base = sym.proc_kstack + i * kstack_size;
  kstack_size = kstack_size;
  user_entry = user_virt_base;
  user_stack_top = user_virt_base + user_region_size;
  user_phys_base = slot b i;
}

-- The message that the loop prints for each process.
abbrev announced : Kernel → Process → ℕ → Kernel
announced k p size =
    log k (codes "[PROC] pid=%u name=%s pgd=0x%08x kstack=0x%08x user_pa=0x%08x img=%u bytes\n") (
      num p.pid ∷ str p.name ∷ num p.pgd ∷ num p.kstack_base ∷ num p.user_phys_base ∷ num size ∷ [])

module _ (b : Board) (sym : Symbols) (images : ℕ → UserImage) (boot_pgd : Pgd) where
  -- One round of the loop.
  unfoldable pub init_process : Setup → ℕ → Setup
  init_process s i =
      let img = images i in
      let p = new_process b sym img i in
      let user_va = add32 p.user_phys_base (phys_offset b) in
      let zeroed = kmemset s.ram user_va 0 user_region_size in
      let (q, stacks) = process_build_initial_frame s.stacks p sym.ret_from_first_entry in
      let k = record s.kernel {
        sched = record (s.kernel.sched) { processes = update s.kernel.sched.processes i q };
      } in
      record {
        kernel = announced k q (length img.bytes);
        pgds = λ j.
            if j == i
            then pgtable_build_for_proc b boot_pgd (s.pgds i) p.user_phys_base
            else s.pgds j;
        ram = kmemcpy zeroed user_va img.bytes;
        stacks = stacks;
      }

  unfoldable pub init_processes : ℕ → ℕ → Setup → Setup
  init_processes zero i s = s
  init_processes (suc left) i s = init_processes left (i + 1) (init_process s i)

  unfoldable pub process_init_all : Setup → Setup
  process_init_all s =
      let done = init_processes num_processes 0 s in
      record done {
        kernel = record (done.kernel) { sched = record (done.kernel.sched) { current = some 0 } };
      }
