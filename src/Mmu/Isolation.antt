-- ===== src/Mmu/Isolation.antt =====
-- What each process can reach through its own page table.
use refix_os.Common.{
  ℕ, zero, suc, ◌≡◌, ◌<◌, ◌+◌, ◌-◌, ◌/◌, ◌%◌, ◌==◌, ◌&&◌, leb, ltb, u32_mod, add32, if◌then◌else◌,
  arith, Bool, true, false, Option, some, none, if_both, Bool-cases, inl, inr,
}
use refix_os.Mmu.{
  Pgd, Board, qemu, bbb, map_section, map_sections, pgtable_map_range, platform_map_peripherals,
  mmu_build_boot_pgd, mmu_drop_identity, pgtable_build_for_proc, descriptor, section_size, ident_lo,
  ident_hi, pgd_entries, pde_user_text, shift20,
}
use refix_os.Mmu.Entries.{clear_entries_lem, copy_entries_lem, is_copied}
use refix_os.Mmu.Walk.{user_walk, is_section, is_user, section_pa}
use refix_os.Syscall.Pointer.{user_virt_base, user_region_size}

-- No entry of the table lets user mode in.
abbrev pub IsKernelOnly : Pgd → Type 0
IsKernelOnly pgd = (j : ℕ) → pgd j % section_size < 2048

map_section-IsKernelOnly :
    (pgd : Pgd) (va pa attrs : ℕ)
    → attrs < 2048
    → IsKernelOnly pgd
    → IsKernelOnly (map_section pgd va pa attrs)
unfolding map_section
map_section-IsKernelOnly pgd va pa attrs h v j = ground (arith, v j)

map_sections-IsKernelOnly :
    (pgd : Pgd) (va pa attrs left i : ℕ)
    → attrs < 2048
    → IsKernelOnly pgd
    → IsKernelOnly (map_sections pgd va pa attrs left i)
unfolding map_sections
map_sections-IsKernelOnly pgd va pa attrs zero i h v = v
map_sections-IsKernelOnly pgd va pa attrs (suc left) i h v =
    map_sections-IsKernelOnly (map_section pgd (add32 va (shift20 i)) (add32 pa (shift20 i)) attrs)
      va pa attrs left (i + 1) h (map_section-IsKernelOnly pgd _ _ attrs h v)

map_range-IsKernelOnly :
    (pgd : Pgd) (va pa size attrs : ℕ)
    → attrs < 2048
    → IsKernelOnly pgd
    → IsKernelOnly (pgtable_map_range pgd va pa size attrs)
unfolding pgtable_map_range
map_range-IsKernelOnly pgd va pa size attrs h v = map_sections-IsKernelOnly pgd va pa attrs _ 0 h v

peripherals-IsKernelOnly :
    (b : Board) (pgd : Pgd) → IsKernelOnly pgd → IsKernelOnly (platform_map_peripherals b pgd)
unfolding platform_map_peripherals
peripherals-IsKernelOnly qemu pgd v =
    map_range-IsKernelOnly _ _ _ _ _ (omega arith)
      (map_range-IsKernelOnly pgd _ _ _ _ (omega arith) v)
peripherals-IsKernelOnly bbb pgd v =
    map_range-IsKernelOnly _ _ _ _ _ (omega arith)
      (map_range-IsKernelOnly pgd _ _ _ _ (omega arith) v)

pub build_boot-IsKernelOnly :
    (b : Board) (pgd : Pgd) → IsKernelOnly pgd → IsKernelOnly (mmu_build_boot_pgd b pgd)
unfolding mmu_build_boot_pgd
build_boot-IsKernelOnly b pgd v = peripherals-IsKernelOnly b _ (
    map_range-IsKernelOnly _ _ _ _ _ (omega arith)
      (map_range-IsKernelOnly pgd _ _ _ _ (omega arith) v))

drop_identity-IsKernelOnly :
    (b : Board) (pgd : Pgd) → IsKernelOnly pgd → IsKernelOnly (mmu_drop_identity b pgd)
unfolding mmu_drop_identity
drop_identity-IsKernelOnly b pgd v j =
    ground (arith, v j, clear_entries_lem pgd (ident_hi b - ident_lo b) (ident_lo b) j)

-- An entry of a process's table, below its end.
pub build_for_proc_lem :
    (b : Board) (boot pgd : Pgd) (pa j : ℕ)
    → j < pgd_entries
    → pgtable_build_for_proc b boot pgd pa j ≡ (
        if j == user_virt_base / section_size
        then descriptor pa pde_user_text
        else if is_copied b boot j
        then boot j
        else 0)
unfolding pgtable_build_for_proc map_section
build_for_proc_lem b boot pgd pa j h =
    rw (copy_entries_lem b boot _ pgd_entries 0 j, clear_entries_lem pgd pgd_entries 0 j)
      (cases (is_copied b boot j))
  where
    cases :
        (c : Bool)
        → (if j == user_virt_base / section_size
            then descriptor pa pde_user_text
            else if leb 0 j && ltb j (0 + pgd_entries) && c
            then boot j
            else if leb 0 j && ltb j (0 + pgd_entries)
            then 0
            else pgd j)
          ≡ (if j == user_virt_base / section_size
              then descriptor pa pde_user_text
              else if c
              then boot j
              else 0)
    cases true = ground arith
    cases false = ground arith

-- What user mode gets from an entry that is the process's own in the window, and `e` elsewhere.
entry_walk : ℕ → ℕ → Option ℕ
entry_walk w va = if is_section w && is_user w then some (section_pa w va) else none

own_entry :
    (pa va : ℕ)
    → pa % section_size ≡ 0
    → entry_walk (descriptor pa pde_user_text) va ≡ some (pa + va % section_size)
unfolding entry_walk
own_entry pa va al = ground arith

kernel_entry : (e va : ℕ) → e % section_size < 2048 → entry_walk e va ≡ none
unfolding entry_walk
kernel_entry e va h = ground arith

window_lem :
    (e pa va : ℕ)
    → e % section_size < 2048
    → pa % section_size ≡ 0
    → entry_walk
        (if va / section_size == user_virt_base / section_size
          then descriptor pa pde_user_text
          else e)
        va
      ≡ (if leb user_virt_base va && ltb va (user_virt_base + user_region_size)
          then some (pa + (va - user_virt_base))
          else none)
window_lem e pa va h al = elim (Bool-cases (va / section_size == user_virt_base / section_size)) [
  | inl t ↦ rw (t, own_entry pa va al) (ground arith)
  | inr t ↦ rw (t, kernel_entry e va h) (ground arith)
]

-- When the boot table grants user mode nothing and the slot at `pa` is a megabyte of its own, user
-- mode reaches through a process's table exactly the slot, at the user window, and faults at every
-- other address of 32 bits, whatever the table held before it was built.
pub user_walk_lem :
    (b : Board) (boot pgd : Pgd) (pa va : ℕ)
    → IsKernelOnly boot
    → pa % section_size ≡ 0
    → va < u32_mod
    → user_walk (pgtable_build_for_proc b boot pgd pa) va ≡ (
        if leb user_virt_base va && ltb va (user_virt_base + user_region_size)
        then some (pa + (va - user_virt_base))
        else none)
unfolding user_walk entry_walk
user_walk_lem b boot pgd pa va v al h =
    rw (build_for_proc_lem b boot pgd pa (va / section_size) (omega arith)) (
      window_lem (if is_copied b boot (va / section_size) then boot (va / section_size) else 0) pa
        va
        (if_both (λ e. e % section_size < 2048) (is_copied b boot (va / section_size)) _ _ (v _)
          (omega arith))
        al)
