-- ===== src/Mmu/Tests.antt =====
-- The tables at concrete addresses.
use refix_os.Common.{◌≡◌, ◌+◌, arith, refl, some, none}
use refix_os.Mmu.{
  Pgd, Board, qemu, bbb, mmu_build_boot_pgd, pgtable_build_for_proc, va_kernel_base, ram_base,
}
use refix_os.Mmu.Isolation.{user_walk_lem, build_boot-IsKernelOnly}
use refix_os.Mmu.Walk.{user_walk, kernel_walk}
use refix_os.Mmu.Mirror.{kernel_walk_lem}
use refix_os.Mmu.Startup.{start, Translation, drop_identity, translate}
use refix_os.Mmu.Startup.Translated.{start_translates}

abbrev zeroed : Pgd
zeroed i = 0

abbrev boot : Board → Pgd
boot b = mmu_build_boot_pgd b zeroed

-- The stack of process 2 on the QEMU board, and its null pointer.
user_walk_lem_example :
    user_walk (pgtable_build_for_proc qemu (boot qemu) zeroed 0x70400000) 0x400FFFF0
    ≡ some 0x704FFFF0
user_walk_lem_example =
    user_walk_lem qemu (boot qemu) zeroed 0x70400000 0x400FFFF0
      (build_boot-IsKernelOnly qemu zeroed (λ j. omega arith)) refl (omega arith)

kernel_walk_lem_example :
    kernel_walk
      (pgtable_build_for_proc bbb (boot bbb) zeroed 0x80200000)
      (va_kernel_base + 0x123456)
    ≡ some (ram_base bbb + 0x123456)
kernel_walk_lem_example = kernel_walk_lem bbb zeroed zeroed 0x80200000 0x123456 (omega arith)

-- At reset: the image is 1 MB behind the start of RAM, and memory holds anything.
abbrev at_reset : Translation
at_reset = record {
  registers = record { ttbr0 = 0; ttbcr = 5; dacr = 0; sctlr = 0xC50078 };
  tables = λ a i. 7;
}

start_translates_example :
    let t = start qemu at_reset 0xC0100000 0x70100000 0xC010C000 in
    let u = drop_identity qemu t 0x7010C000 in
    (translate t 0x70100040 ≡ some 0x70100040)
    × (translate t 0xC0100040 ≡ some 0x70100040)
    × (translate t 4 ≡ none)
    × (translate u 0x70100040 ≡ none)
    × (translate u 0xC0100040 ≡ some 0x70100040)
    × (translate u 4 ≡ none)
start_translates_example =
    start_translates qemu at_reset 0x100000 0x10C000 0x100040 4 (omega arith) (omega arith) refl
      (omega arith) (omega arith)
