-- ===== src/Boot/Loaded.antt =====
-- What process_init_all leaves for each process: its program in a slot of memory that is its own.
use refix_os.Common.{
  ℕ, zero, suc, ◌+◌, ◌-◌, ◌*◌, ◌<◌, ◌≤◌, ◌≡◌, ◌∙◌, refl, List, [], ◌∷◌, Option, some, none, ◌&&◌,
  ◌==◌, leb, ltb, if◌then◌else◌, get_or, length, add32, arith, Bool-cases, inl, inr, u32_mod, ◌%◌,
  ap, ◌≢◌, true,
}
use mathlib.Core.Path
use refix_os.Boot.Memory.{Bytes, kmemset, kmemcpy, kmemset_lem, kmemcpy_lem}
use refix_os.Boot.Processes.{
  Setup, Symbols, UserImage, init_process, new_process, slot, phys_offset, process_init_all,
  init_processes,
}
use refix_os.Mmu.{
  mmu_build_boot_pgd, Board, qemu, bbb, Pgd, pgtable_build_for_proc, section_size, ram_base,
}
use refix_os.Mmu.Walk.{user_walk}
use refix_os.Proc.{num_processes}
use refix_os.Syscall.Pointer.{user_region_size, user_virt_base}
use refix_os.Mmu.Isolation.{IsKernelOnly, build_boot-IsKernelOnly, user_walk_lem}

-- A byte as process i reads it in user mode, through its table; a fault reads as 0.
abbrev pub byte_at : Board → Bytes → Option ℕ → ℕ
byte_at b ram none = 0
byte_at b ram (some pa) = ram (pa + phys_offset b)

abbrev pub user_view : Board → Setup → ℕ → ℕ → ℕ
user_view b s i va = byte_at b s.ram (user_walk (s.pgds i) va)

-- The slots by kernel address.
abbrev slot_va : ℕ → ℕ
slot_va i = 0xC0200000 + i * 0x00100000

slot-phys_offset :
    (b : Board) (i : ℕ) → i < num_processes → add32 (slot b i) (phys_offset b) ≡ slot_va i
slot-phys_offset qemu i h = omega arith
slot-phys_offset bbb i h = omega arith

-- An image fits its slot.
abbrev pub Fits : (ℕ → UserImage) → Type 0
Fits images = (i : ℕ) → i < num_processes → length (images i).bytes ≤ user_region_size

-- Memory with the image of process i in its slot.
abbrev with_image : Bytes → ℕ → List ℕ → Bytes
with_image ram i bytes a =
    if leb (slot_va i) a && ltb a (slot_va i + user_region_size)
    then get_or bytes (a - slot_va i) 0
    else ram a

get_or_beyond : (s : List ℕ) (i : ℕ) → length s ≤ i → get_or s i 0 ≡ 0
get_or_beyond [] i h = refl
get_or_beyond (c ∷ s) zero h = absurd (omega arith)
get_or_beyond (c ∷ s) (suc i) h = get_or_beyond s i (omega arith)

copied_image :
    (ram : Bytes) (u a : ℕ) (bytes : List ℕ)
    → length bytes ≤ user_region_size
    → kmemcpy (kmemset ram u 0 user_region_size) u bytes a
      ≡ (if leb u a && ltb a (u + user_region_size) then get_or bytes (a - u) 0 else ram a)
copied_image ram u a bytes h =
    kmemcpy_lem (kmemset ram u 0 user_region_size) u bytes a
    ∙ rw (kmemset_lem ram u 0 user_region_size a) (elim (Bool-cases (ltb a (u + length bytes))) [
      | inl l ↦ ground (arith, l)
      | inr l ↦ ground (arith, get_or_beyond bytes (a - u))
    ])

-- The byte at an offset of the window is in the slot.
in_slot :
    (b : Board) (ram : Bytes) (i off : ℕ)
    → off < user_region_size
    → byte_at b ram (
        if leb user_virt_base (user_virt_base + off)
          && ltb (user_virt_base + off) (user_virt_base + user_region_size)
        then some (slot b i + (user_virt_base + off - user_virt_base))
        else none)
      ≡ ram (slot_va i + off)
in_slot b ram i off l = rw (within) (ap ram (number b))
  where
    within :
        (leb user_virt_base (user_virt_base + off)
          && ltb (user_virt_base + off) (user_virt_base + user_region_size))
        ≡ true
    within = ground arith

    number :
        (b : Board)
        → slot b i + (user_virt_base + off - user_virt_base) + phys_offset b ≡ slot_va i + off
    number qemu = omega arith
    number bbb = omega arith

inside :
    (ram : Bytes) (i off : ℕ) (bytes : List ℕ)
    → off < user_region_size
    → with_image ram i bytes (slot_va i + off) ≡ get_or bytes off 0
inside ram i off bytes h =
    let e : slot_va i + off - slot_va i ≡ off = omega arith in rw e (ground arith)

outside :
    (ram : Bytes) (i j off : ℕ) (bytes : List ℕ)
    → off < user_region_size
    → i ≢ j
    → with_image ram j bytes (slot_va i + off) ≡ ram (slot_va i + off)
outside ram i j off bytes h ne = ground arith

module _ (b : Board) (sym : Symbols) (images : ℕ → UserImage) (boot_pgd : Pgd) where
  round_ram :
      (s : Setup) (i a : ℕ)
      → i < num_processes
      → Fits images
      → (init_process b sym images boot_pgd s i).ram a ≡ with_image s.ram i (images i).bytes a
  unfolding init_process new_process
  round_ram s i a h fits =
      rw (slot-phys_offset b i h) (copied_image s.ram (slot_va i) a (images i).bytes (fits i h))

  round_pgds :
      (s : Setup) (i j : ℕ)
      → (init_process b sym images boot_pgd s i).pgds j
        ≡ (if j == i then pgtable_build_for_proc b boot_pgd (s.pgds i) (slot b i) else s.pgds j)
  unfolding init_process new_process
  round_pgds s i j = refl

  all_ram :
      (s : Setup) (a : ℕ)
      → Fits images
      → (process_init_all b sym images boot_pgd s).ram a
        ≡ with_image
            (with_image (with_image s.ram 0 (images 0).bytes) 1 (images 1).bytes)
            2
            (images 2).bytes
            a
  unfolding process_init_all init_processes
  all_ram s a fits =
      let s1 = init_process b sym images boot_pgd s 0 in
      let s2 = init_process b sym images boot_pgd s1 1 in
      round_ram s2 2 a (omega arith) fits
      ∙ ap
          (λ x.
            if leb (slot_va 2) a && ltb a (slot_va 2 + user_region_size)
            then get_or (images 2).bytes (a - slot_va 2) 0
            else x)
          (round_ram s1 1 a (omega arith) fits
            ∙ ap
                (λ x.
                  if leb (slot_va 1) a && ltb a (slot_va 1 + user_region_size)
                  then get_or (images 1).bytes (a - slot_va 1) 0
                  else x)
                (round_ram s 0 a (omega arith) fits))

  slot_byte :
      (s : Setup) (i off : ℕ)
      → Fits images
      → i < num_processes
      → off < user_region_size
      → (process_init_all b sym images boot_pgd s).ram (slot_va i + off)
        ≡ get_or (images i).bytes off 0
  slot_byte s i off fits h l = all_ram s (slot_va i + off) fits ∙ each i h
    where
      ram1 : Bytes
      ram1 = with_image s.ram 0 (images 0).bytes

      ram2 : Bytes
      ram2 = with_image ram1 1 (images 1).bytes

      each :
          (i : ℕ)
          → i < num_processes
          → with_image ram2 2 (images 2).bytes (slot_va i + off) ≡ get_or (images i).bytes off 0
      each zero h =
          outside ram2 0 2 off (images 2).bytes l (omega arith)
          ∙ outside ram1 0 1 off (images 1).bytes l (omega arith)
          ∙ inside s.ram 0 off (images 0).bytes l
      each (suc zero) h =
          outside ram2 1 2 off (images 2).bytes l (omega arith)
          ∙ inside ram1 1 off (images 1).bytes l
      each (suc (suc zero)) h = inside ram2 2 off (images 2).bytes l
      each (suc (suc (suc i))) h = absurd (omega arith)

  pgds_built :
      (s : Setup) (i : ℕ)
      → i < num_processes
      → (process_init_all b sym images boot_pgd s).pgds i
        ≡ pgtable_build_for_proc b boot_pgd (s.pgds i) (slot b i)
  unfolding process_init_all init_processes init_process new_process
  pgds_built s zero h = refl
  pgds_built s (suc zero) h = refl
  pgds_built s (suc (suc zero)) h = refl
  pgds_built s (suc (suc (suc i))) h = absurd (omega arith)

  -- Which physical address process i reaches in user mode.
  pub walk_built :
      (s : Setup) (i va : ℕ)
      → IsKernelOnly boot_pgd
      → i < num_processes
      → va < u32_mod
      → user_walk ((process_init_all b sym images boot_pgd s).pgds i) va ≡ (
          if leb user_virt_base va && ltb va (user_virt_base + user_region_size)
          then some (slot b i + (va - user_virt_base))
          else none)
  walk_built s i va v h l =
      ap (λ pgd. user_walk pgd va) (pgds_built s i h)
      ∙ user_walk_lem b boot_pgd (s.pgds i) (slot b i) va v (aligned b) l
    where
      aligned : (b : Board) → slot b i % section_size ≡ 0
      aligned qemu = omega arith
      aligned bbb = omega arith

  -- After process_init_all each process reads its own program in user mode, through its own table,
  -- from the start of the user window on, and zeros behind it up to the end of the window. The images
  -- are no longer than a megabyte, and the boot table grants user mode nothing.
  pub user_view-process_init_all :
      (s : Setup) (i off : ℕ)
      → IsKernelOnly boot_pgd
      → Fits images
      → i < num_processes
      → off < user_region_size
      → user_view b (process_init_all b sym images boot_pgd s) i (user_virt_base + off)
        ≡ get_or (images i).bytes off 0
  user_view-process_init_all s i off v fits h l =
      let t = process_init_all b sym images boot_pgd s in
      ap (byte_at b t.ram) (walk_built s i (user_virt_base + off) v h (omega arith))
      ∙ in_slot b t.ram i off l
      ∙ slot_byte s i off fits h l

-- Two processes never reach the same physical byte, whatever addresses they use, and no process
-- reaches the first two megabytes of RAM, where the kernel is. The table that the boot code built is
-- zero but for what it maps.
pub slots_disjoint :
    (b : Board) (sym : Symbols) (images : ℕ → UserImage) (zeroed : Pgd) (s : Setup)
    (i j va va' pa pa' : ℕ)
    → IsKernelOnly zeroed
    → i < num_processes
    → j < num_processes
    → va < u32_mod
    → va' < u32_mod
    → user_walk ((process_init_all b sym images (mmu_build_boot_pgd b zeroed) s).pgds i) va
      ≡ some pa
    → user_walk ((process_init_all b sym images (mmu_build_boot_pgd b zeroed) s).pgds j) va'
      ≡ some pa'
    → i ≢ j
    → (pa ≢ pa') × (ram_base b + 0x00200000 ≤ pa)
slots_disjoint b sym images zeroed s i j va va' pa pa' v hi hj l l' e e' ne =
    let boot_pgd = mmu_build_boot_pgd b zeroed in
    let w = build_boot-IsKernelOnly b zeroed v in
    apart (Path.sym (walk_built b sym images boot_pgd s i va w hi l) ∙ e)
      (Path.sym (walk_built b sym images boot_pgd s j va' w hj l') ∙ e')
  where
    apart :
        (if leb user_virt_base va && ltb va (user_virt_base + user_region_size)
            then some (slot b i + (va - user_virt_base))
            else none)
          ≡ some pa
        → (if leb user_virt_base va' && ltb va' (user_virt_base + user_region_size)
            then some (slot b j + (va' - user_virt_base))
            else none)
          ≡ some pa'
        → (pa ≢ pa') × (ram_base b + 0x00200000 ≤ pa)
    apart p q = ground arith
