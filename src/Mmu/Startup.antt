-- ===== src/Mmu/Startup.antt =====
-- mmu_init of kernel/arch/arm/mm/mmu.c and kernel/arch/arm/mm/mmu_enable.S, with the part of
-- kernel/arch/arm/boot/start.S that leads to them.
pub mod Orr
pub mod Translated
use Prim.Native.Nat.{bit_or}
use refix_os.Mmu.{Pgd, Board, mmu_build_boot_pgd, mmu_drop_identity}
use refix_os.Mmu.Walk.{kernel_walk}
use refix_os.Common.{ℕ, Option, some, if◌then◌else◌, ◌==◌, sub32, ◌^◌, ◌%◌, ◌/◌, ◌*◌}

pub record Registers : Type 0 where
  pub ttbr0 : ℕ
  pub ttbcr : ℕ
  pub dacr : ℕ
  pub sctlr : ℕ

-- The tables in memory by physical address.
pub record Translation : Type 0 where
  pub registers : Registers
  pub tables : ℕ → Pgd

unfoldable pub mmu_enable : Registers → ℕ → Registers
mmu_enable r pgd_pa = record {
  ttbr0 = bit_or pgd_pa 0x4A;
  ttbcr = 0;
  dacr = 1;
  sctlr = bit_or (bit_or (bit_or (bit_or r.sctlr (2 ^ 0)) (2 ^ 2)) (2 ^ 11)) (2 ^ 12);
}

abbrev pub with_table : Translation → ℕ → Pgd → Translation
with_table s pa pgd = record s { tables = λ a. if a == pa then pgd else s.tables a }

unfoldable pub mmu_init : Board → Translation → ℕ → ℕ → Translation
mmu_init b s pgd_va phys_offset =
    let pgd_pa = sub32 pgd_va phys_offset in
    record (with_table s pgd_pa (mmu_build_boot_pgd b (s.tables pgd_pa))) {
      registers = mmu_enable s.registers pgd_pa;
    }

-- From reset up to the jump to the high addresses. The loop over the BSS, where boot_pgd lies, leaves
-- zeros in the table.
unfoldable pub start : Board → Translation → ℕ → ℕ → ℕ → Translation
start b s start_va start_pa pgd_va =
    let phys_offset = sub32 start_va start_pa in
    mmu_init b (with_table s (sub32 pgd_va phys_offset) (λ i. 0)) pgd_va phys_offset

-- mmu_drop_identity on the table that is in use.
unfoldable pub drop_identity : Board → Translation → ℕ → Translation
drop_identity b s pgd_pa = with_table s pgd_pa (mmu_drop_identity b (s.tables pgd_pa))

-- The physical address behind an address of the kernel: the same while the MMU is off. The table is
-- at the upper 18 bits of TTBR0.
unfoldable pub translate : Translation → ℕ → Option ℕ
translate s va =
    if s.registers.sctlr % 2 == 1
    then kernel_walk (s.tables (s.registers.ttbr0 / 2 ^ 14 * 2 ^ 14)) va
    else some va
