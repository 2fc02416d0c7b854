-- ===== src/Boot/Tests.antt =====
-- Start-up with small programs.
use refix_os.Boot.Processes.{Setup, Symbols, UserImage, process_init_all, slot}
use refix_os.Mmu.{Board, Pgd, mmu_build_boot_pgd, bbb, qemu, ram_base, va_kernel_base}
use refix_os.Boot.Loaded.{user_view, Fits, slots_disjoint, user_view-process_init_all, walk_built}
use refix_os.Common.{
  ℕ, ◌≢◌, ◌≤◌, ◌<◌, arith, codes, ◌+◌, ◌≡◌, ◌∷◌, get_or, some, [], ◌∙◌, List, false, ◌++◌, refl,
}
use refix_os.Boot.Main.{zeroed_kernel}
use refix_os.Proc.{num_processes}
use refix_os.Syscall.Pointer.{user_region_size, user_virt_base}
use refix_os.Mmu.Walk.{user_walk}
use refix_os.Mmu.Isolation.{build_boot-IsKernelOnly}
use refix_os.Boot.Icache.{
  Caches, icache_sync, Event, clean_lines, issued, does, dccmvau, finish_sync, fetch, refills,
  happens, evicts, dsb, iciallu, prefetches, isb,
}
use refix_os.Boot.Icache.Fetched.{lines, icache_sync_fetches}
use refix_os.Boot.Memory.{kmemcpy}
use refix_os.Boot.Reset.{ResetState, reset, translation}
use refix_os.Boot.Reset.Ready.{image, IsReady, reset_starts}
use refix_os.Mmu.Startup.{translate, start}

abbrev zeroed : Pgd
zeroed i = 0

abbrev programs : ℕ → UserImage
programs i = record { name = codes "app"; bytes = (10 + i) ∷ 20 ∷ 30 ∷ [] }

abbrev symbols : Symbols
symbols = record {
  proc_pgd = 0xC0020000;
  proc_kstack = 0xC0030000;
  ret_from_first_entry = 0xC0001000;
}

abbrev before : Setup
before = record { kernel = zeroed_kernel; pgds = λ i. zeroed; ram = λ a. 255; stacks = λ a. 0 }

abbrev boot : Board → Pgd
boot b = mmu_build_boot_pgd b zeroed

short : Fits programs
short i h = omega arith

-- The third byte of the program of process 2.
user_view-process_init_all_example :
    user_view bbb (process_init_all bbb symbols programs (boot bbb) before) 2 (user_virt_base + 2)
    ≡ get_or (programs 2).bytes 2 0
user_view-process_init_all_example =
    user_view-process_init_all bbb symbols programs (boot bbb) before 2 2
      (build_boot-IsKernelOnly bbb zeroed (λ j. omega arith)) short (omega arith) (omega arith)

walked :
    (i off : ℕ)
    → i < num_processes
    → off < user_region_size
    → user_walk
        ((process_init_all qemu symbols programs (boot qemu) before).pgds i)
        (user_virt_base + off)
      ≡ some (slot qemu i + off)
walked i off h l =
    walk_built qemu symbols programs (boot qemu) before i (user_virt_base + off)
      (build_boot-IsKernelOnly qemu zeroed (λ j. omega arith)) h (omega arith)
    ∙ ground arith

slots_disjoint_example :
    (slot qemu 0 + 16 ≢ slot qemu 1 + 16) × (ram_base qemu + 0x00200000 ≤ slot qemu 0 + 16)
slots_disjoint_example =
    slots_disjoint qemu symbols programs zeroed before 0 1 0x40000010 0x40000010 0x70200010
      0x70300010 (λ j. omega arith) (omega arith) (omega arith) (omega arith) (omega arith)
      (walked 0 16 (omega arith) (omega arith)) (walked 1 16 (omega arith) (omega arith))
      (omega arith)

-- The instruction cache holds ones, and is refilled with them before the cleans are complete; the
-- image crosses the end of a line.
abbrev stale : Caches
stale = record {
  data_side = λ x. 0;
  unified = λ x. 1;
  cached = λ x. some 1;
  ahead = λ x. some 1;
  cleaning = λ x. false;
  invalidating = false;
}

abbrev instructions : List ℕ
instructions = 7 ∷ 8 ∷ 9 ∷ []

abbrev synced : List Event
synced =
    does (dccmvau 0xC0200020)
    ∷ refills 0xC020003E
    ∷ does (dccmvau 0xC0200040)
    ∷ evicts 0xC0200040
    ∷ does dsb
    ∷ does iciallu
    ∷ refills 0xC0200040
    ∷ does dsb
    ∷ prefetches 0xC0200040
    ∷ does isb
    ∷ []

synced_issues : icache_sync 4 0xC020003E 3 ≡ some (issued synced)
unfolding icache_sync clean_lines
synced_issues = refl

icache_sync_fetches_example :
    (icache_sync 4 0xC020003E 3 ≡ some (lines 0xC0200020 2 ++ finish_sync))
    × (fetch
          (happens
            (record stale { data_side = kmemcpy stale.data_side 0xC020003E instructions })
            synced)
          0xC0200040
        ≡ 9)
icache_sync_fetches_example =
    icache_sync_fetches 4 0xC020003E 2 instructions stale synced (omega arith) (omega arith)
      synced_issues (omega arith)

abbrev switched_on : ResetState
switched_on = record {
  mode = 0x1F;
  masked = false;
  sp = λ m. 0;
  registers = record { ttbr0 = 0; ttbcr = 5; dacr = 0; sctlr = 0xC50078 };
  memory = λ a. 0xDEADBEEF;
}

-- A BSS of 32 KB, with the table at its start.
reset_starts_example :
    (s' : ResetState) × (reset 9000 bbb (image bbb 0 0x14000 8192 0x14000) (λ a. 7) switched_on
      ≡ some s')
    × IsReady bbb 0x14000 8192 0x14000 (λ a. 7) switched_on s' 0x8001D000
    × (translate (translation s') 0xC0014000
        ≡ translate
            (start bbb
              (translation switched_on)
              va_kernel_base
              (ram_base bbb)
              (va_kernel_base + 0x14000))
            0xC0014000)
reset_starts_example =
    reset_starts 9000 bbb (λ a. 7) switched_on 0 0x14000 8192 0x14000 0x8001D000 0xC0014000
      (omega arith) (omega arith) (omega arith) (omega arith) (omega arith) (omega arith)
      (omega arith) (omega arith)
