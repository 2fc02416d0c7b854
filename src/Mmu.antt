-- ===== src/Mmu.antt =====
-- kernel/arch/arm/mm/pgtable.c, the level 1 page tables, with kernel/platform/*/periph_map.c and
-- mmu_drop_identity of kernel/arch/arm/mm/mmu.c. A table is a function from an index below 4096 to
-- its entry. The cache and TLB maintenance instructions have no counterpart in the model.
pub mod Walk
pub mod Entries
pub mod Isolation
pub mod Mirror
pub mod Startup
mod Tests
use refix_os.Common.{
  ℕ, zero, suc, ◌+◌, ◌*◌, ◌/◌, ◌%◌, ◌^◌, ◌&&◌, add32, u32_mod, ◌==◌, leb, ltb, if◌then◌else◌, ◌-◌,
}
use refix_os.Syscall.Pointer.{user_virt_base}

pub data Board : Type 0 where
  qemu bbb : Board

-- RAM_BASE and RAM_SIZE of kernel/platform/*/board.h.
abbrev pub ram_base : Board → ℕ
ram_base qemu = 0x70000000
ram_base bbb = 0x80000000

abbrev pub ram_size : Board → ℕ
ram_size qemu = 128 * 1024 * 1024
ram_size bbb = 512 * 1024 * 1024

abbrev pub Pgd : Type 0
Pgd = ℕ → ℕ

abbrev pub pgd_entries : ℕ
pgd_entries = 4096

-- The bytes of a section; `x >> 20` divides by it.
abbrev pub section_size : ℕ
section_size = 2 ^ 20

abbrev pub va_kernel_base : ℕ
va_kernel_base = 0xC0000000

-- The attribute words, whose bits the header adds up: section 2, B 4, C 8, XN 16, AP0 1024, AP1 2048.
abbrev pub pde_kernel_mem : ℕ
pde_kernel_mem = 2 + 8 + 4 + 1024

abbrev pub pde_device : ℕ
pde_device = 2 + 1024 + 16

abbrev pub pde_user_text : ℕ
pde_user_text = 2 + 8 + 4 + 1024 + 2048

-- `(pa & 0xFFF00000U) | attrs`, where the attributes are bits below 2 ^ 20.
abbrev pub descriptor : ℕ → ℕ → ℕ
descriptor pa attrs = pa / section_size * section_size + attrs

unfoldable pub map_section : Pgd → ℕ → ℕ → ℕ → Pgd
map_section pgd va pa attrs i = if i == va / section_size then descriptor pa attrs else pgd i

-- `i << 20` in 32 bits.
abbrev pub shift20 : ℕ → ℕ
shift20 i = i * section_size % u32_mod

-- The loop of `pgtable_map_range`, with the rounds that are left and the counter `i`.
unfoldable pub map_sections : Pgd → ℕ → ℕ → ℕ → ℕ → ℕ → Pgd
map_sections pgd va pa attrs zero i = pgd
map_sections pgd va pa attrs (suc left) i =
    map_sections (map_section pgd (add32 va (shift20 i)) (add32 pa (shift20 i)) attrs) va pa attrs
      left (i + 1)

unfoldable pub pgtable_map_range : Pgd → ℕ → ℕ → ℕ → ℕ → Pgd
pgtable_map_range pgd va pa size_bytes attrs =
    map_sections pgd va pa attrs (size_bytes / section_size) 0

unfoldable pub platform_map_peripherals : Board → Pgd → Pgd
platform_map_peripherals qemu pgd =
    pgtable_map_range (pgtable_map_range pgd 0x10000000 0x10000000 (2 * section_size) pde_device)
      0x1E000000 0x1E000000 section_size pde_device
platform_map_peripherals bbb pgd =
    pgtable_map_range (pgtable_map_range pgd 0x44E00000 0x44E00000 section_size pde_device)
      0x48000000 0x48000000 (16 * section_size) pde_device

unfoldable pub mmu_build_boot_pgd : Board → Pgd → Pgd
mmu_build_boot_pgd b pgd =
    let identity = pgtable_map_range pgd (ram_base b) (ram_base b) (ram_size b) pde_kernel_mem in
    let high = pgtable_map_range identity va_kernel_base (ram_base b) (ram_size b) pde_kernel_mem in
    platform_map_peripherals b high

-- `for (i …) pgd[i] = 0`, over `left` entries from `i` on.
unfoldable pub clear_entries : Pgd → ℕ → ℕ → Pgd
clear_entries pgd zero i = pgd
clear_entries pgd (suc left) i = clear_entries (λ j. if j == i then 0 else pgd j) left (i + 1)

-- The indices of the identity map of RAM.
abbrev pub ident_lo : Board → ℕ
ident_lo b = ram_base b / section_size

abbrev pub ident_hi : Board → ℕ
ident_hi b = (ram_base b + ram_size b) / section_size

-- One round of the copy loop of `pgtable_build_for_proc`, with its two `continue`s.
unfoldable pub copy_entry : Board → Pgd → Pgd → ℕ → Pgd
copy_entry b boot pgd i =
    if boot i == 0 then pgd else if leb (ident_lo b) i && ltb i (ident_hi b) then pgd else λ j.
    if j == i then boot i else pgd j

unfoldable pub copy_entries : Board → Pgd → Pgd → ℕ → ℕ → Pgd
copy_entries b boot pgd zero i = pgd
copy_entries b boot pgd (suc left) i = copy_entries b boot (copy_entry b boot pgd i) left (i + 1)

unfoldable pub pgtable_build_for_proc : Board → Pgd → Pgd → ℕ → Pgd
pgtable_build_for_proc b boot pgd user_pa =
    let cleared = clear_entries pgd pgd_entries 0 in
    let mirrored = copy_entries b boot cleared pgd_entries 0 in
    map_section mirrored user_virt_base user_pa pde_user_text

unfoldable pub mmu_drop_identity : Board → Pgd → Pgd
mmu_drop_identity b boot = clear_entries boot (ident_hi b - ident_lo b) (ident_lo b)
