-- ===== src/Boot/Reset/Ready.antt =====
-- What the code of kernel/arch/arm/boot/start.S leaves for kmain.
use refix_os.Common.{
  ℕ, ◌<◌, if◌then◌else◌, ◌+◌, ◌*◌, ◌≡◌, u32_mod, ◌-◌, some, ◌%◌, suc, arith, true, ◌∙◌, zero, ◌/◌,
  refl, sub32, Bool-cases, inl, ==_iff, inr, ◌≤◌, ◌^◌, ap, sym, false,
}
use refix_os.Boot.Reset.Zeroed.{in_words, zero_bss_lem}
use refix_os.Boot.Reset.{
  svc_stack_top, Image, table_at, in_table, call_mmu_init, ResetState, svc_mode, fiq_mode, irq_mode,
  abt_mode, und_mode, reset, set_stacks, set_stack, translation, on_stack,
}
use refix_os.Boot.{Words}
use refix_os.Mmu.{
  mmu_build_boot_pgd, map_sections, platform_map_peripherals, Pgd, map_section, pgtable_map_range,
  section_size, Board, qemu, bbb, pgd_entries, ram_size, va_kernel_base, ram_base,
}
use refix_os.Mmu.Walk.{kernel_walk}
use refix_os.Mmu.Startup.{mmu_init, translate, start, mmu_enable}
use refix_os.Mmu.Startup.Translated.{in_use, pgd_pa_lem, aligned, started}

map_sections-same :
    (left i va pa attrs j : ℕ) (p q : Pgd)
    → p j ≡ q j
    → map_sections p va pa attrs left i j ≡ map_sections q va pa attrs left i j
unfolding map_sections map_section
map_sections-same zero i va pa attrs j p q e = e
map_sections-same (suc left) i va pa attrs j p q e =
    map_sections-same left (i + 1) va pa attrs j _ _ (ground (arith, e))

-- An entry of the table depends on what the table held there, and on nothing else of it.
build_boot-same :
    (b : Board) (p q : Pgd) (j : ℕ)
    → p j ≡ q j
    → mmu_build_boot_pgd b p j ≡ mmu_build_boot_pgd b q j
unfolding mmu_build_boot_pgd platform_map_peripherals pgtable_map_range
build_boot-same qemu p q j e = map_sections-same _ 0 _ _ _ j _ _ (
    map_sections-same _ 0 _ _ _ j _ _
      (map_sections-same _ 0 _ _ _ j _ _ (map_sections-same _ 0 _ _ _ j p q e)))
build_boot-same bbb p q j e = map_sections-same _ 0 _ _ _ j _ _ (
    map_sections-same _ 0 _ _ _ j _ _
      (map_sections-same _ 0 _ _ _ j _ _ (map_sections-same _ 0 _ _ _ j p q e)))

walk-same :
    (p q : Pgd) (w : ℕ)
    → p (w / section_size) ≡ q (w / section_size)
    → kernel_walk p w ≡ kernel_walk q w
unfolding kernel_walk
walk-same p q w e = rw e refl

-- An image that lies `y` bytes behind the start of RAM, with a BSS of n words at p, boot_pgd at o and the
-- stacks behind the BSS.
abbrev pub image : Board → (y p n o : ℕ) → Image
image b y p n o = record {
  start_va = va_kernel_base + y;
  start_pa = ram_base b + y;
  bss_start = va_kernel_base + p;
  bss_end = va_kernel_base + p + 4 * n;
  boot_pgd = va_kernel_base + o;
  stacks = va_kernel_base + p + 4 * n;
}

offset :
    (b : Board) (y : ℕ) → sub32 (va_kernel_base + y) (ram_base b + y) ≡ va_kernel_base - ram_base b
offset qemu y = omega arith
offset bbb y = omega arith

physical :
    (b : Board) (x : ℕ)
    → x < ram_size b
    → sub32 (va_kernel_base + x) (va_kernel_base - ram_base b) ≡ ram_base b + x
physical qemu x h = omega arith
physical bbb x h = omega arith

-- The physical address of the top of the SVC stack.
abbrev pub svc_top : Board → (p n : ℕ) → ℕ
svc_top b p n = ram_base b + (p + 4 * n + 0x2E00)

-- mmu_init, for a table in the part of memory that has been zeroed.
built :
    (b : Board) (scratch : Words) (s : ResetState) (y p n o a : ℕ)
    → s.sp svc_mode ≡ svc_top b p n
    → o < ram_size b
    → ((i : ℕ) → i < pgd_entries → s.memory (ram_base b + o + i * 4) ≡ 0)
    → (call_mmu_init b (image b y p n o) scratch s (va_kernel_base - ram_base b)).memory a ≡ (
        if on_stack (svc_top b p n) a
        then scratch a
        else if in_table (ram_base b + o) a
        then mmu_build_boot_pgd b (λ i. 0) ((a - (ram_base b + o)) / 4)
        else s.memory a)
unfolding call_mmu_init mmu_init
built b scratch s y p n o a top lo z =
    let pa = ram_base b + o in
    rw (physical b o lo, top)
      (ap (λ r. if on_stack (svc_top b p n) a then scratch a else r)
        (elim (Bool-cases (in_table pa a)) [
          | inl e ↦
              let in_range : (a - pa) / 4 < pgd_entries = ground (arith, e) in
              rw (e, (==_iff pa pa).1 refl)
                (build_boot-same b _ _ ((a - pa) / 4) (z ((a - pa) / 4) in_range))
          | inr e ↦ rw e refl
        ]))

-- What kmain finds: SVC mode with interrupts masked, each mode on its own stack behind the BSS, and the
-- word of memory at a, which is what mmu_init left on the SVC stack, an entry of the boot table, a
-- zero in the rest of the BSS, or as it was.
pub record IsReady (b : Board) (p n o : ℕ) (scratch : Words) (s s' : ResetState) (a : ℕ)
    : Type 0 where
  pub mode : s'.mode ≡ svc_mode
  pub masked : s'.masked ≡ true
  pub fiq_stack : s'.sp fiq_mode ≡ va_kernel_base + p + 4 * n + 0x200
  pub irq_stack : s'.sp irq_mode ≡ s'.sp fiq_mode + 0x400
  pub abt_stack : s'.sp abt_mode ≡ s'.sp irq_mode + 0x400
  pub und_stack : s'.sp und_mode ≡ s'.sp abt_mode + 0x400
  pub svc_stack : s'.sp svc_mode ≡ s'.sp und_mode + 0x2000
  pub word : s'.memory a ≡ (
      if on_stack (svc_top b p n) a
      then scratch a
      else if in_table (ram_base b + o) a
      then mmu_build_boot_pgd b (λ i. 0) ((a - (ram_base b + o)) / 4)
      else if in_words (ram_base b + p) n a
      then 0
      else s.memory a)

below_top : (b : Board) (x : ℕ) → x < ram_size b → ram_base b + x < u32_mod
below_top qemu x h = omega arith
below_top bbb x h = omega arith

-- The part behind the loop, on memory with an empty BSS.
module _ (b : Board) (scratch : Words) (s t : ResetState) (y p n o : ℕ) (clear : t.masked ≡ true)
    (top : t.sp svc_mode ≡ svc_top b p n)
    (words : (a : ℕ) → t.memory a ≡ (if in_words (ram_base b + p) n a then 0 else s.memory a))
    (lb : p + 4 * n + 0x2E00 < ram_size b) (lo : p ≤ o) (al : p % 4 ≡ 0)
    (hi : o + 16384 ≤ p + 4 * n) (page : o % 2 ^ 14 ≡ 0) where
  abbrev finished : ResetState
  finished =
      let img = image b y p n o in
      set_stacks img (call_mmu_init b img scratch t (va_kernel_base - ram_base b))

  cleared : (i : ℕ) → i < pgd_entries → t.memory (ram_base b + o + i * 4) ≡ 0
  cleared i h =
      let word : (ram_base b + o + i * 4 - (ram_base b + p)) % 4 ≡ 0 = omega arith in
      let there : in_words (ram_base b + p) n (ram_base b + o + i * 4) ≡ true =
        ground (arith, word) in
      words (ram_base b + o + i * 4) ∙ rw there refl

  finished_word :
      (a : ℕ)
      → finished.memory a ≡ (
          if on_stack (svc_top b p n) a
          then scratch a
          else if in_table (ram_base b + o) a
          then mmu_build_boot_pgd b (λ i. 0) ((a - (ram_base b + o)) / 4)
          else if in_words (ram_base b + p) n a
          then 0
          else s.memory a)
  unfolding set_stacks set_stack
  finished_word a = built b scratch t y p n o a top (omega arith) cleared ∙ rw (words a) refl

  finished-IsReady : (a : ℕ) → IsReady b p n o scratch s finished a
  unfolding set_stacks set_stack call_mmu_init
  finished-IsReady a = record {
    mode = refl;
    masked = clear;
    fiq_stack = refl;
    irq_stack = refl;
    abt_stack = refl;
    und_stack = refl;
    svc_stack = refl;
    word = finished_word a;
  }

  finished_registers : finished.registers ≡ mmu_enable t.registers (ram_base b + o)
  unfolding set_stacks set_stack call_mmu_init mmu_init
  finished_registers = ap (mmu_enable t.registers) (physical b o (omega arith))

  finished_table :
      (i : ℕ)
      → i < pgd_entries
      → table_at finished.memory (ram_base b + o) i ≡ mmu_build_boot_pgd b (λ i. 0) i
  finished_table i h =
      let pa = ram_base b + o in
      let there : in_table pa (pa + i * 4) ≡ true = ground arith in
      let index : (pa + i * 4 - pa) / 4 ≡ i = omega arith in
      let below : on_stack (svc_top b p n) (pa + i * 4) ≡ false = ground arith in
      finished_word (pa + i * 4) ∙ rw (below, there, index) refl

  finished_translates :
      (w : ℕ)
      → w < u32_mod
      → translate (translation finished) w ≡ kernel_walk (mmu_build_boot_pgd b (λ i. 0)) w
  finished_translates w h =
      in_use (translation finished) t.registers (ram_base b + o) w finished_registers
        (aligned b o page)
      ∙ walk-same _ _ w (finished_table (w / section_size) (omega arith))

-- start.S comes to kmain, in SVC mode with interrupts masked and each mode on its own stack behind
-- the BSS; every word of the BSS is zero, but for boot_pgd, which holds the boot table; outside the BSS
-- and the 8 KB of the SVC stack, which has what the compiled mmu_init left there, no word of memory
-- has changed; and every address is translated as mmu_init on an empty table has it. The image lies y
-- bytes behind the start of RAM, its BSS has n words, BSS and stacks lie in RAM, boot_pgd lies in the
-- BSS at a multiple of 16 KB, and the fuel is above the words of the BSS.
pub reset_starts :
    (fuel : ℕ) (b : Board) (scratch : Words) (s : ResetState) (y p n o a w : ℕ)
    → n < fuel
    → y < ram_size b
    → p + 4 * n + 0x2E00 < ram_size b
    → p ≤ o
    → p % 4 ≡ 0
    → o + 16384 ≤ p + 4 * n
    → o % 2 ^ 14 ≡ 0
    → w < u32_mod
    → (s' : ResetState) × (reset fuel b (image b y p n o) scratch s ≡ some s')
      × IsReady b p n o scratch s s' a
      × (translate (translation s') w
          ≡ translate
              (start b (translation s) (va_kernel_base + y) (ram_base b + y) (va_kernel_base + o))
              w)
unfolding reset set_stack
reset_starts fuel b scratch s y p n o a w hf hy hb lo al hi page hw =
    let img = image b y p n o in
    let off = va_kernel_base - ram_base b in
    let s1 = set_stack (record s { masked = true }) svc_mode (sub32 (svc_stack_top img) off) in
    let (m, runs, words) =
      zero_bss_lem n fuel (ram_base b + p) s.memory hf
        (omega (arith, below_top b (p + 4 * n) (omega arith))) in
    let t = record s1 { memory = m } in
    let bss_end : sub32 (va_kernel_base + p + 4 * n) off ≡ ram_base b + p + 4 * n =
      ap (λ q. sub32 q off) (omega arith) ∙ physical b (p + 4 * n) (omega arith) ∙ omega arith in
    let top : t.sp svc_mode ≡ svc_top b p n =
      ap (λ q. sub32 q off) (omega arith) ∙ physical b (p + 4 * n + 0x2E00) hb in
    let boot_pgd = ap (λ q. q % 2 ^ 14) (pgd_pa_lem b y o hy (omega arith)) ∙ aligned b o page in
    (
      finished b scratch s t y p n o refl top words hb lo al hi page,
      rw (offset b y, physical b p (omega arith), bss_end, runs) refl,
      finished-IsReady b scratch s t y p n o refl top words hb lo al hi page a,
      finished_translates b scratch s t y p n o refl top words hb lo al hi page w hw
          ∙ sym (started b (translation s) _ _ _ w boot_pgd),
    )
