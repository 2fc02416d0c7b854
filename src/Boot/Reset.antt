-- ===== src/Boot/Reset.antt =====
-- kernel/arch/arm/boot/start.S from reset to the call of kmain, instruction by instruction, with
-- mmu_init on the words of memory. The tops of the stacks are those of kernel/linker/kernel_qemu.ld, and
-- kernel_bbb.ld has the same.
mod Zeroed
pub mod Ready
use mathlib.Core.Option as Option
use refix_os.Common.{
  ℕ, Option, if◌then◌else◌, Bool, ◌+◌, none, ◌==◌, leb, sub32, true, ◌-◌, ◌*◌, suc, ◌&&◌, ◌/◌, ltb,
  add32, ◌%◌, some, zero,
}
use refix_os.Mmu.{Board, Pgd}
use refix_os.Mmu.Startup.{Translation, Registers, mmu_init}
use refix_os.Boot.{Words, store_word}

-- The numbers of the processor's modes.
abbrev pub fiq_mode : ℕ
fiq_mode = 0x11

abbrev pub irq_mode : ℕ
irq_mode = 0x12

abbrev pub svc_mode : ℕ
svc_mode = 0x13

abbrev pub abt_mode : ℕ
abt_mode = 0x17

abbrev pub und_mode : ℕ
und_mode = 0x1B

-- The symbols of the linker, and the address at which the image runs.
pub record Image : Type 0 where
  pub start_va : ℕ
  pub start_pa : ℕ
  pub bss_start : ℕ
  pub bss_end : ℕ
  pub boot_pgd : ℕ
  pub stacks : ℕ

abbrev pub fiq_stack_top : Image → ℕ
fiq_stack_top i = i.stacks + 0x200

abbrev pub irq_stack_top : Image → ℕ
irq_stack_top i = fiq_stack_top i + 0x400

abbrev pub abt_stack_top : Image → ℕ
abt_stack_top i = irq_stack_top i + 0x400

abbrev pub und_stack_top : Image → ℕ
und_stack_top i = abt_stack_top i + 0x400

abbrev pub svc_stack_top : Image → ℕ
svc_stack_top i = und_stack_top i + 0x2000

-- The processor with the banked stack pointers by mode, and the words of memory by physical address.
pub record ResetState : Type 0 where
  pub mode : ℕ
  pub masked : Bool
  pub sp : ℕ → ℕ
  pub registers : Registers
  pub memory : Words

-- `cps #mode` and a value for `sp`.
unfoldable pub set_stack : ResetState → ℕ → ℕ → ResetState
set_stack s mode top = record s { mode = mode; sp = λ m. if m == mode then top else s.sp m }

-- The loop at .Lzero_bss from `r1` to `r2`.
unfoldable pub zero_bss : ℕ → Words → ℕ → ℕ → Option Words
zero_bss zero m r1 r2 = none
zero_bss (suc fuel) m r1 r2 =
    let rest = zero_bss fuel (store_word m r1 0) (add32 r1 4) r2 in
    if ltb r1 r2 then rest else some m

-- A table of 4096 words.
abbrev pub table_at : Words → ℕ → Pgd
table_at m a i = m (a + i * 4)

abbrev pub in_table : ℕ → ℕ → Bool
in_table pa a = leb pa a && ltb a (pa + 16384) && (a - pa) % 4 == 0

abbrev pub put_table : Words → ℕ → Pgd → Words
put_table m pa pgd a = if in_table pa a then pgd ((a - pa) / 4) else m a

abbrev pub translation : ResetState → Translation
translation s = record { registers = s.registers; tables = table_at s.memory }

-- The 8 KB of the SVC stack below its top.
abbrev pub on_stack : ℕ → ℕ → Bool
on_stack top a = leb (top - 0x2000) a && ltb a top

abbrev pub put_stack : (scratch : Words) → Words → ℕ → Words
put_stack scratch m top a = if on_stack top a then scratch a else m a

-- mmu_init with the MMU off, so that it stores to the table by its physical address. What its compiled
-- code pushes on the stack that `sp` points to is not in the source: `scratch` has the words of that
-- stack behind the call.
unfoldable pub call_mmu_init : Board → Image → Words → ResetState → ℕ → ResetState
call_mmu_init b img scratch s phys_offset =
    let pgd_pa = sub32 img.boot_pgd phys_offset in
    let t = mmu_init b (translation s) img.boot_pgd phys_offset in
    let m = put_table s.memory pgd_pa (t.tables pgd_pa) in
    record s { registers = t.registers; memory = put_stack scratch m (s.sp svc_mode) }

-- The stack pointers behind the jump to the high addresses.
unfoldable pub set_stacks : Image → ResetState → ResetState
set_stacks img s =
    let s1 = set_stack s fiq_mode (fiq_stack_top img) in
    let s2 = set_stack s1 irq_mode (irq_stack_top img) in
    let s3 = set_stack s2 abt_mode (abt_stack_top img) in
    let s4 = set_stack s3 und_mode (und_stack_top img) in set_stack s4 svc_mode (svc_stack_top img)

unfoldable pub reset : ℕ → Board → Image → Words → ResetState → Option ResetState
reset fuel b img scratch s =
    let phys_offset = sub32 img.start_va img.start_pa in
    let s1 =
      set_stack (record s { masked = true }) svc_mode (sub32 (svc_stack_top img) phys_offset) in
    Option.map
      (λ m. set_stacks img (call_mmu_init b img scratch (record s1 { memory = m }) phys_offset))
      (zero_bss fuel s1.memory (sub32 img.bss_start phys_offset) (sub32 img.bss_end phys_offset))
