-- ===== src/Mmu/Mirror.antt =====
-- The kernel's half of a process's table: high RAM, and no address of the identity map.
use refix_os.Common.{
  ℕ, ◌≡◌, ◌<◌, ◌≤◌, ◌+◌, ◌-◌, ◌*◌, ◌/◌, ◌%◌, ◌∙◌, ◌==◌, ◌&&◌, leb, ltb, not, if◌then◌else◌, arith,
  some, none, true, refl, ap, Bool, false,
}
use refix_os.Mmu.{
  Pgd, Board, qemu, bbb, pgtable_map_range, platform_map_peripherals, mmu_build_boot_pgd,
  pgtable_build_for_proc, section_size, ident_lo, ident_hi, pgd_entries, ram_base, ram_size,
  pde_kernel_mem, pde_device, va_kernel_base, descriptor, pde_user_text,
}
use refix_os.Mmu.Entries.{map_sections_lem, is_copied}
use refix_os.Mmu.Isolation.{build_for_proc_lem}
use refix_os.Mmu.Walk.{kernel_walk}
use refix_os.Syscall.Pointer.{user_virt_base}

pub map_range_lem :
    (pgd : Pgd) (v p n attrs j : ℕ)
    → v + n ≤ pgd_entries
    → p + n ≤ pgd_entries
    → pgtable_map_range pgd (v * section_size) (p * section_size) (n * section_size) attrs j
      ≡ (if leb v j && ltb j (v + n) then (p + (j - v)) * section_size + attrs else pgd j)
unfolding pgtable_map_range
map_range_lem pgd v p n attrs j h1 h2 =
    rw (divides n) (map_sections_lem pgd v p attrs n 0 j (omega arith) (omega arith) ∙ ground arith)
  where
    divides : (m : ℕ) → m * section_size / section_size ≡ m
    divides m = omega arith

-- A range of peripherals does not touch an entry of high memory.
below_high :
    (pgd : Pgd) (v n j : ℕ)
    → v + n ≤ va_kernel_base / section_size
    → va_kernel_base / section_size ≤ j
    → pgtable_map_range pgd (v * section_size) (v * section_size) (n * section_size) pde_device j
      ≡ pgd j
below_high pgd v n j h1 h2 =
    map_range_lem pgd v v n pde_device j (omega arith) (omega arith) ∙ ground arith

-- The entry of the boot table that holds the high alias of RAM.
pub boot_high :
    (b : Board) (pgd : Pgd) (j : ℕ)
    → va_kernel_base / section_size ≤ j
    → j < va_kernel_base / section_size + ram_size b / section_size
    → mmu_build_boot_pgd b pgd j
      ≡ (ram_base b / section_size + (j - va_kernel_base / section_size)) * section_size
        + pde_kernel_mem
unfolding mmu_build_boot_pgd platform_map_peripherals
boot_high qemu pgd j h1 h2 =
    below_high _ 480 1 j (omega arith) h1
    ∙ below_high _ 256 2 j (omega arith) h1
    ∙ map_range_lem _ 3072 1792 128 pde_kernel_mem j (omega arith) (omega arith)
    ∙ ground arith
boot_high bbb pgd j h1 h2 =
    below_high _ 1152 16 j (omega arith) h1
    ∙ below_high _ 1102 1 j (omega arith) h1
    ∙ map_range_lem _ 3072 2048 512 pde_kernel_mem j (omega arith) (omega arith)
    ∙ ground arith

high_copied :
    (b : Board) (pgd : Pgd) (j : ℕ)
    → va_kernel_base / section_size ≤ j
    → j < va_kernel_base / section_size + ram_size b / section_size
    → is_copied b (mmu_build_boot_pgd b pgd) j ≡ true
high_copied b pgd j h1 h2 = rw (boot_high b pgd j h1 h2) (each b h1 h2)
  where
    each :
        (b : Board)
        → va_kernel_base / section_size ≤ j
        → j < va_kernel_base / section_size + ram_size b / section_size
        → (not (
              (ram_base b / section_size + (j - va_kernel_base / section_size)) * section_size
                + pde_kernel_mem
              == 0)
            && not (leb (ident_lo b) j && ltb j (ident_hi b)))
          ≡ true
    each qemu h1 h2 = ground arith
    each bbb h1 h2 = ground arith

high_entry :
    (b : Board) (zeroed pgd : Pgd) (pa j : ℕ)
    → va_kernel_base / section_size ≤ j
    → j < va_kernel_base / section_size + ram_size b / section_size
    → j < pgd_entries
    → pgtable_build_for_proc b (mmu_build_boot_pgd b zeroed) pgd pa j
      ≡ (ram_base b / section_size + (j - va_kernel_base / section_size)) * section_size
        + pde_kernel_mem
high_entry b zeroed pgd pa j h1 h2 h3 =
    build_for_proc_lem b (mmu_build_boot_pgd b zeroed) pgd pa j h3
    ∙ (rw (high_copied b zeroed j h1 h2) (ground arith ∙ boot_high b zeroed j h1 h2))

ident_entry :
    (b : Board) (boot pgd : Pgd) (pa j : ℕ)
    → ident_lo b ≤ j
    → j < ident_hi b
    → pgtable_build_for_proc b boot pgd pa j ≡ 0
ident_entry b boot pgd pa j h1 h2 =
    build_for_proc_lem b boot pgd pa j (below b h2) ∙ inside b h1 h2 (boot j == 0)
  where
    below : (b : Board) → j < ident_hi b → j < pgd_entries
    below qemu h = omega arith
    below bbb h = omega arith

    inside :
        (b : Board)
        → ident_lo b ≤ j
        → j < ident_hi b
        → (c : Bool)
        → (if j == user_virt_base / section_size
            then descriptor pa pde_user_text
            else if not c && not (leb (ident_lo b) j && ltb j (ident_hi b))
            then boot j
            else 0)
          ≡ 0
    inside qemu h1 h2 true = ground arith
    inside qemu h1 h2 false = ground arith
    inside bbb h1 h2 true = ground arith
    inside bbb h1 h2 false = ground arith

pub walk_section :
    (pgd : Pgd) (va p : ℕ)
    → pgd (va / section_size) ≡ p * section_size + pde_kernel_mem
    → kernel_walk pgd va ≡ some (p * section_size + va % section_size)
unfolding kernel_walk
walk_section pgd va p e = rw e (ground arith)

-- Through a process's table, whichever its slot, the kernel sees all of RAM at its high addresses,
-- byte for byte where the boot table put it.
pub kernel_walk_lem :
    (b : Board) (zeroed pgd : Pgd) (pa off : ℕ)
    → off < ram_size b
    → kernel_walk
        (pgtable_build_for_proc b (mmu_build_boot_pgd b zeroed) pgd pa)
        (va_kernel_base + off)
      ≡ some (ram_base b + off)
kernel_walk_lem qemu zeroed pgd pa off h =
    walk_section _ (va_kernel_base + off) _ (
      high_entry qemu zeroed pgd pa ((va_kernel_base + off) / section_size) (omega arith)
        (omega arith) (omega arith))
    ∙ ap some (omega arith)
kernel_walk_lem bbb zeroed pgd pa off h =
    walk_section _ (va_kernel_base + off) _ (
      high_entry bbb zeroed pgd pa ((va_kernel_base + off) / section_size) (omega arith)
        (omega arith) (omega arith))
    ∙ ap some (omega arith)

-- With the identity map of RAM left out of it, a process's table faults the kernel, too, at every
-- physical address of RAM.
identity_faults :
    (b : Board) (boot pgd : Pgd) (pa off : ℕ)
    → off < ram_size b
    → kernel_walk (pgtable_build_for_proc b boot pgd pa) (ram_base b + off) ≡ none
unfolding kernel_walk
identity_faults b boot pgd pa off h =
    rw (ident_entry b boot pgd pa ((ram_base b + off) / section_size) (lo b h) (hi b h)) refl
  where
    lo : (b : Board) → off < ram_size b → ident_lo b ≤ (ram_base b + off) / section_size
    lo qemu h = omega arith
    lo bbb h = omega arith

    hi : (b : Board) → off < ram_size b → (ram_base b + off) / section_size < ident_hi b
    hi qemu h = omega arith
    hi bbb h = omega arith
