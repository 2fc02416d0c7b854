-- ===== src/Mmu/Walk.antt =====
-- What a table says to the hardware, by kernel/include/mmu.h: an entry whose low bits are
-- PDE_TYPE_SECTION maps a megabyte, and user mode may use it when AP1 is set.
use refix_os.Common.{ℕ, ◌+◌, ◌*◌, ◌/◌, ◌%◌, Bool, Option, some, none, ◌==◌, ◌&&◌, if◌then◌else◌}
use refix_os.Mmu.{Pgd, section_size}

abbrev pub is_section : ℕ → Bool
is_section e = e % 4 == 2

abbrev pub is_user : ℕ → Bool
is_user e = e / 2048 % 2 == 1

abbrev pub section_pa : ℕ → ℕ → ℕ
section_pa e va = e / section_size * section_size + va % section_size

-- The physical address behind `va` for the kernel, and for user mode; `none` is a fault.
unfoldable pub kernel_walk : Pgd → ℕ → Option ℕ
kernel_walk pgd va =
    let e = pgd (va / section_size) in if is_section e then some (section_pa e va) else none

unfoldable pub user_walk : Pgd → ℕ → Option ℕ
user_walk pgd va =
    let e = pgd (va / section_size) in
    if is_section e && is_user e then some (section_pa e va) else none
