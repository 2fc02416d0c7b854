-- ===== src/Mmu/Startup/Translated.antt =====
-- What the kernel reaches from the moment that the MMU is on.
use Prim.Native.Nat.{bit_or}
use refix_os.Mmu.{
  Board, qemu, bbb, Pgd, mmu_build_boot_pgd, mmu_drop_identity, ram_base, ram_size, va_kernel_base,
  section_size, ident_lo, ident_hi, pde_kernel_mem, pde_device, platform_map_peripherals,
  pgtable_map_range,
}
use refix_os.Mmu.Mirror.{map_range_lem, boot_high, walk_section}
use refix_os.Mmu.Startup.{
  Translation, Registers, translate, start, drop_identity, mmu_init, mmu_enable, with_table,
}
use refix_os.Mmu.Startup.Orr.{orr_keeps, orr_low}
use refix_os.Mmu.Walk.{kernel_walk}
use refix_os.Mmu.Entries.{clear_entries_lem}
use refix_os.Common.{
  ◌≡◌, ℕ, ◌+◌, arith, ◌≤◌, ◌%◌, ◌<◌, ◌==◌, inl, ◌*◌, ◌⊎◌, ◌∙◌, true, inr, ◌^◌, ==_iff, sub32, ap,
  some, ◌/◌, refl, none, Option, subst,
}

-- A range leaves the entries outside it alone.
outside :
    (pgd : Pgd) (v p n attrs j : ℕ)
    → v + n ≤ 4096
    → p + n ≤ 4096
    → (j < v) ⊎ (v + n ≤ j)
    → pgtable_map_range pgd (v * section_size) (p * section_size) (n * section_size) attrs j ≡ pgd j
outside pgd v p n attrs j h1 h2 (inl h) = map_range_lem pgd v p n attrs j h1 h2 ∙ ground arith
outside pgd v p n attrs j h1 h2 (inr h) = map_range_lem pgd v p n attrs j h1 h2 ∙ ground arith

boot_identity :
    (b : Board) (pgd : Pgd) (j : ℕ)
    → ident_lo b ≤ j
    → j < ident_hi b
    → mmu_build_boot_pgd b pgd j ≡ j * section_size + pde_kernel_mem
unfolding mmu_build_boot_pgd platform_map_peripherals
boot_identity qemu pgd j h1 h2 =
    outside _ 480 480 1 pde_device j (omega arith) (omega arith) (inr (omega arith))
    ∙ outside _ 256 256 2 pde_device j (omega arith) (omega arith) (inr (omega arith))
    ∙ outside _ 3072 1792 128 pde_kernel_mem j (omega arith) (omega arith) (inl (omega arith))
    ∙ map_range_lem _ 1792 1792 128 pde_kernel_mem j (omega arith) (omega arith)
    ∙ ground arith
boot_identity bbb pgd j h1 h2 =
    outside _ 1152 1152 16 pde_device j (omega arith) (omega arith) (inr (omega arith))
    ∙ outside _ 1102 1102 1 pde_device j (omega arith) (omega arith) (inr (omega arith))
    ∙ outside _ 3072 2048 512 pde_kernel_mem j (omega arith) (omega arith) (inl (omega arith))
    ∙ map_range_lem _ 2048 2048 512 pde_kernel_mem j (omega arith) (omega arith)
    ∙ ground arith

boot_null : (b : Board) (pgd : Pgd) → mmu_build_boot_pgd b pgd 0 ≡ pgd 0
unfolding mmu_build_boot_pgd platform_map_peripherals
boot_null qemu pgd =
    outside _ 480 480 1 pde_device 0 (omega arith) (omega arith) (inl (omega arith))
    ∙ outside _ 256 256 2 pde_device 0 (omega arith) (omega arith) (inl (omega arith))
    ∙ outside _ 3072 1792 128 pde_kernel_mem 0 (omega arith) (omega arith) (inl (omega arith))
    ∙ outside _ 1792 1792 128 pde_kernel_mem 0 (omega arith) (omega arith) (inl (omega arith))
boot_null bbb pgd =
    outside _ 1152 1152 16 pde_device 0 (omega arith) (omega arith) (inl (omega arith))
    ∙ outside _ 1102 1102 1 pde_device 0 (omega arith) (omega arith) (inl (omega arith))
    ∙ outside _ 3072 2048 512 pde_kernel_mem 0 (omega arith) (omega arith) (inl (omega arith))
    ∙ outside _ 2048 2048 512 pde_kernel_mem 0 (omega arith) (omega arith) (inl (omega arith))

enabled : (r : Registers) (pa : ℕ) → ((mmu_enable r pa).sctlr % 2 == 1) ≡ true
unfolding mmu_enable
enabled r pa =
    let z : ℕ = r.sctlr in
    let a = orr_low z (2 ^ 0) in
    let b = orr_low (bit_or z (2 ^ 0)) (2 ^ 2) in
    let c = orr_low (bit_or (bit_or z (2 ^ 0)) (2 ^ 2)) (2 ^ 11) in
    let d = orr_low (bit_or (bit_or (bit_or z (2 ^ 0)) (2 ^ 2)) (2 ^ 11)) (2 ^ 12) in
    let e : (mmu_enable r pa).sctlr % 2 ≡ 1 = omega (arith, a, b, c, d) in (==_iff _ 1).1 e

-- The address of boot_pgd before the MMU is on.
abbrev pub pgd_pa : ℕ → ℕ → ℕ → ℕ
pgd_pa start_va start_pa pgd_va = sub32 pgd_va (sub32 start_va start_pa)

table_base : (r : Registers) (p : ℕ) → p % 2 ^ 14 ≡ 0 → (mmu_enable r p).ttbr0 / 2 ^ 14 * 2 ^ 14 ≡ p
unfolding mmu_enable
table_base r p h = let e = orr_keeps p 0x4A (omega arith) in omega (arith, e)

pub in_use :
    (s : Translation) (r : Registers) (p va : ℕ)
    → s.registers ≡ mmu_enable r p
    → p % 2 ^ 14 ≡ 0
    → translate s va ≡ kernel_walk (s.tables p) va
unfolding translate
in_use s r p va e h = rw (e, enabled r p) (ap (λ a. kernel_walk (s.tables a) va) (table_base r p h))

with_table_at : (s : Translation) (p : ℕ) (pgd : Pgd) → (with_table s p pgd).tables p ≡ pgd
with_table_at s p pgd = rw ((==_iff p p).1 refl) refl

started_table :
    (b : Board) (s : Translation) (start_va start_pa pgd_va : ℕ)
    → let p = pgd_pa start_va start_pa pgd_va in
      (start b s start_va start_pa pgd_va).tables p ≡ mmu_build_boot_pgd b (λ i. 0)
unfolding start mmu_init
started_table b s start_va start_pa pgd_va =
    let p = pgd_pa start_va start_pa pgd_va in
    with_table_at (with_table s p (λ i. 0)) p _
    ∙ ap (mmu_build_boot_pgd b) (with_table_at s p (λ i. 0))

-- The translations right after the MMU is on, and after the identity map is gone.
pub started :
    (b : Board) (s : Translation) (start_va start_pa pgd_va va : ℕ)
    → pgd_pa start_va start_pa pgd_va % 2 ^ 14 ≡ 0
    → translate (start b s start_va start_pa pgd_va) va
      ≡ kernel_walk (mmu_build_boot_pgd b (λ i. 0)) va
started b s start_va start_pa pgd_va va h =
    in_use (start b s start_va start_pa pgd_va) s.registers (pgd_pa start_va start_pa pgd_va) va
      (unfold start mmu_init in refl) h
    ∙ ap (λ t. kernel_walk t va) (started_table b s start_va start_pa pgd_va)

dropped_table :
    (b : Board) (t : Translation) (p : ℕ)
    → (drop_identity b t p).tables p ≡ mmu_drop_identity b (t.tables p)
unfolding drop_identity
dropped_table b t p = with_table_at t p (mmu_drop_identity b (t.tables p))

dropped :
    (b : Board) (s : Translation) (start_va start_pa pgd_va va : ℕ)
    → pgd_pa start_va start_pa pgd_va % 2 ^ 14 ≡ 0
    → translate
        (drop_identity b (start b s start_va start_pa pgd_va) (pgd_pa start_va start_pa pgd_va))
        va
      ≡ kernel_walk (mmu_drop_identity b (mmu_build_boot_pgd b (λ i. 0))) va
dropped b s start_va start_pa pgd_va va h =
    let p = pgd_pa start_va start_pa pgd_va in
    let t = start b s start_va start_pa pgd_va in
    in_use (drop_identity b t p) s.registers p va (unfold drop_identity start mmu_init in refl) h
    ∙ ap (λ t. kernel_walk t va)
        (dropped_table b t p
          ∙ ap (mmu_drop_identity b) (started_table b s start_va start_pa pgd_va))

walk_none : (pgd : Pgd) (va : ℕ) → pgd (va / section_size) ≡ 0 → kernel_walk pgd va ≡ none
unfolding kernel_walk
walk_none pgd va e = rw e refl

identity_walk :
    (b : Board) (pgd : Pgd) (x : ℕ)
    → x < ram_size b
    → kernel_walk (mmu_build_boot_pgd b pgd) (ram_base b + x) ≡ some (ram_base b + x)
identity_walk qemu pgd x h =
    walk_section _ (ram_base qemu + x) ((ram_base qemu + x) / section_size)
      (boot_identity qemu pgd ((ram_base qemu + x) / section_size) (omega arith) (omega arith))
    ∙ ap some (omega arith)
identity_walk bbb pgd x h =
    walk_section _ (ram_base bbb + x) ((ram_base bbb + x) / section_size)
      (boot_identity bbb pgd ((ram_base bbb + x) / section_size) (omega arith) (omega arith))
    ∙ ap some (omega arith)

-- A table whose high entries are those of the boot table.
high_walk :
    (b : Board) (pgd t : Pgd) (x : ℕ)
    → x < ram_size b
    → t ((va_kernel_base + x) / section_size)
      ≡ mmu_build_boot_pgd b pgd ((va_kernel_base + x) / section_size)
    → kernel_walk t (va_kernel_base + x) ≡ some (ram_base b + x)
high_walk qemu pgd t x h e =
    walk_section t (va_kernel_base + x) _
      (e ∙ boot_high qemu pgd ((va_kernel_base + x) / section_size) (omega arith) (omega arith))
    ∙ ap some (omega arith)
high_walk bbb pgd t x h e =
    walk_section t (va_kernel_base + x) _
      (e ∙ boot_high bbb pgd ((va_kernel_base + x) / section_size) (omega arith) (omega arith))
    ∙ ap some (omega arith)

kept :
    (b : Board) (pgd : Pgd) (j : ℕ)
    → (j < ident_lo b) ⊎ (ident_hi b ≤ j)
    → mmu_drop_identity b pgd j ≡ pgd j
unfolding mmu_drop_identity
kept qemu pgd j (inl h) = clear_entries_lem pgd 128 1792 j ∙ ground arith
kept qemu pgd j (inr h) = clear_entries_lem pgd 128 1792 j ∙ ground arith
kept bbb pgd j (inl h) = clear_entries_lem pgd 512 2048 j ∙ ground arith
kept bbb pgd j (inr h) = clear_entries_lem pgd 512 2048 j ∙ ground arith

gone :
    (b : Board) (pgd : Pgd) (x : ℕ)
    → x < ram_size b
    → kernel_walk (mmu_drop_identity b pgd) (ram_base b + x) ≡ none
unfolding mmu_drop_identity
gone qemu pgd x h =
    walk_none _ _
      (clear_entries_lem pgd 128 1792 ((ram_base qemu + x) / section_size) ∙ ground arith)
gone bbb pgd x h =
    walk_none _ _
      (clear_entries_lem pgd 512 2048 ((ram_base bbb + x) / section_size) ∙ ground arith)

null_walk :
    (b : Board) (z : ℕ) → z < section_size → kernel_walk (mmu_build_boot_pgd b (λ i. 0)) z ≡ none
null_walk b z h =
    walk_none _ z (ap (mmu_build_boot_pgd b (λ i. 0)) (omega arith) ∙ boot_null b (λ i. 0))

dropped_high :
    (b : Board) (x : ℕ)
    → x < ram_size b
    → kernel_walk (mmu_drop_identity b (mmu_build_boot_pgd b (λ i. 0))) (va_kernel_base + x)
      ≡ some (ram_base b + x)
dropped_high b x h =
    high_walk b (λ i. 0) _ x h (kept b _ ((va_kernel_base + x) / section_size) (inr (above b)))
  where
    above : (b : Board) → ident_hi b ≤ (va_kernel_base + x) / section_size
    above qemu = omega arith
    above bbb = omega arith

dropped_null :
    (b : Board) (z : ℕ)
    → z < section_size
    → kernel_walk (mmu_drop_identity b (mmu_build_boot_pgd b (λ i. 0))) z ≡ none
dropped_null b z h = walk_none _ z (
    ap (mmu_drop_identity b (mmu_build_boot_pgd b (λ i. 0))) (omega arith)
    ∙ kept b _ 0 (inl (below b))
    ∙ boot_null b (λ i. 0))
  where
    below : (b : Board) → 0 < ident_lo b
    below qemu = omega arith
    below bbb = omega arith

pub pgd_pa_lem :
    (b : Board) (y o : ℕ)
    → y < ram_size b
    → o < ram_size b
    → pgd_pa (va_kernel_base + y) (ram_base b + y) (va_kernel_base + o) ≡ ram_base b + o
pgd_pa_lem qemu y o hy ho = omega arith
pgd_pa_lem bbb y o hy ho = omega arith

pub aligned : (b : Board) (o : ℕ) → o % 2 ^ 14 ≡ 0 → (ram_base b + o) % 2 ^ 14 ≡ 0
aligned qemu o h = omega arith
aligned bbb o h = omega arith

-- Turning the MMU on and dropping the identity map, on both boards. Right after mmu_init all of RAM
-- is at its physical addresses, where the processor still runs, and at the kernel's high addresses,
-- and after mmu_drop_identity only at the high ones; the first megabyte faults both times. The image
-- runs `y` bytes and boot_pgd lies `o` bytes behind the start of RAM, at a multiple of 16 KB.
pub start_translates :
    (b : Board) (s : Translation) (y o x z : ℕ)
    → y < ram_size b
    → o < ram_size b
    → o % 2 ^ 14 ≡ 0
    → x < ram_size b
    → z < section_size
    → let t = start b s (va_kernel_base + y) (ram_base b + y) (va_kernel_base + o) in
      let u = drop_identity b t (ram_base b + o) in
      (translate t (ram_base b + x) ≡ some (ram_base b + x))
      × (translate t (va_kernel_base + x) ≡ some (ram_base b + x))
      × (translate t z ≡ none)
      × (translate u (ram_base b + x) ≡ none)
      × (translate u (va_kernel_base + x) ≡ some (ram_base b + x))
      × (translate u z ≡ none)
start_translates b s y o x z hy ho al hx hz =
    let va = va_kernel_base + y in
    let pa = ram_base b + y in
    let pgd = va_kernel_base + o in
    let t = start b s va pa pgd in
    let e : pgd_pa va pa pgd ≡ ram_base b + o = pgd_pa_lem b y o hy ho in
    let h : pgd_pa va pa pgd % 2 ^ 14 ≡ 0 = ap (λ q. q % 2 ^ 14) e ∙ aligned b o al in
    let later : (w : ℕ) (r : Option ℕ)
        → kernel_walk (mmu_drop_identity b (mmu_build_boot_pgd b (λ i. 0))) w ≡ r
        → translate (drop_identity b t (ram_base b + o)) w ≡ r =
      λ w r q.
        subst (λ p. translate (drop_identity b t p) w ≡ r) e (dropped b s va pa pgd w h ∙ q) in
    (
      started b s va pa pgd (ram_base b + x) h ∙ identity_walk b (λ i. 0) x hx,
      started b s va pa pgd (va_kernel_base + x) h ∙ high_walk b (λ i. 0) _ x hx refl,
      started b s va pa pgd z h ∙ null_walk b z hz,
      later (ram_base b + x) none (gone b _ x hx),
      later (va_kernel_base + x) (some (ram_base b + x)) (dropped_high b x hx),
      later z none (dropped_null b z hz),
    )
