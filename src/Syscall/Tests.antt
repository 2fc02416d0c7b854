-- ===== src/Syscall/Tests.antt =====
-- The system calls at concrete states.
use refix_os.Sched.Invariant
use refix_os.Syscall.Pointer.{user_virt_base, valid_user_ptr, user_region_size, valid_user_ptr_iff}
use refix_os.Common.{
  take, ℕ, arith, List, if◌then◌else◌, ◌≡◌, ◌≤◌, refl, ◌∷◌, ◌-◌, some, [], ◌++◌, ◌==◌, true, ◌<◌,
  ◌+◌, ◌↔◌, codes, false, u32_mod, replicate, none, ◌%◌, length, ◌≢◌, drop, min, ◌⊎◌, get_or-All,
}
use refix_os.Syscall.Dispatch.{
  ExceptionContext, syscall_dispatch, reg, call, with_r0, syscall_table, finished,
}
use refix_os.Kernel.Safe.{IsSafe}
use refix_os.Sched.{Sched, is_runnable, state_of}
use refix_os.Kernel.{Kernel, with_user_mem, user_mem}
use refix_os.Kernel.Sound.{IsSound}
use refix_os.Uart.Ring.Refine.{contents, count}
use refix_os.Syscall.Read.{sys_read}
use refix_os.Syscall.Outcome.{kernel_of, returned, parked, spinning, with_sched, e_fault}
use refix_os.Proc.{TaskState, Process, running, num_processes, dead, ready, blocked}
use refix_os.Syscall.Ps.Listing.{listing, sys_ps_lem}
use refix_os.Syscall.Read.Transfer.{copied, drain, sys_read_transfers}
use refix_os.Syscall.Read.Blocking.{sys_read_hangs, sys_read_parks}
use refix_os.Syscall.Control.{sys_ticks}
use refix_os.Syscall.Ps.{sys_ps}
use refix_os.Syscall.Write.{sys_write, sys_write_lem}
use refix_os.Syscall.Dispatch.Safety.{call-IsSafe}
use refix_os.Kernel.Memory.{stored, bytes_at}
use refix_os.Uart.Format.Lines.{crlf}

abbrev entry : ℕ → TaskState → Process
entry i st = record {
  ctx = record { r = []; sp_svc = 0; lr_svc = 0; spsr = 16; sp_usr = 0; lr_usr = 0 };
  pid = i;
  state = st;
  name = some (codes "app");
  pgd = 0;
  pgd_pa = 0;
  kstack_base = 0;
  kstack_size = 8192;
  user_entry = user_virt_base;
  user_stack_top = user_virt_base + user_region_size;
  user_phys_base = 0x70200000;
}

abbrev sched_of : (ℕ → TaskState) → Sched
sched_of states = record {
  processes = λ i. entry i (states i);
  current = some 2;
  need_reschedule = false;
  switch_count = 0;
  blocked_reader = none;
  wake_hint = none;
}

abbrev kernel_with : Sched → List ℕ → ℕ → Kernel
kernel_with s buf head = record {
  sched = s;
  ring = record { rx_buf = buf ++ replicate 126 0; rx_head = head; rx_tail = 0 };
  out = [];
  timer = record { tick_count = 41; user_handler = none };
  mem = λ i va. 65 + va % 2;
}

-- The shell runs, the others are ready, and two bytes wait.
abbrev typed : Kernel
typed = kernel_with (sched_of (λ i. if i == 2 then running else ready)) (72 ∷ 73 ∷ []) 2

-- The same with nothing typed.
abbrev quiet : Kernel
quiet = kernel_with (sched_of (λ i. if i == 2 then running else ready)) (72 ∷ 73 ∷ []) 0

-- Nothing typed, and the others dead.
abbrev lonely : Kernel
lonely = kernel_with (sched_of (λ i. if i == 2 then running else dead)) (72 ∷ 73 ∷ []) 0

ready_sched : Invariant.IsValid typed.sched
ready_sched = record {
  pids = λ i h. refl;
  current_in = λ c e. ground arith;
  reader_in = λ c e. ground arith;
  hint_in = λ c e. ground arith;
  one_running = λ i e. ground arith;
  reader_sleeps = λ c e. ground arith;
}

lonely_sched : Invariant.IsValid lonely.sched
lonely_sched = record {
  pids = λ i h. refl;
  current_in = λ c e. ground arith;
  reader_in = λ c e. ground arith;
  hint_in = λ c e. ground arith;
  one_running = λ i e. ground arith;
  reader_sleeps = λ c e. ground arith;
}

typed-IsSound : IsSound typed
typed-IsSound = record { sched = ready_sched; ring = omega arith }

quiet-IsSound : IsSound quiet
quiet-IsSound = record { sched = ready_sched; ring = omega arith }

lonely-IsSound : IsSound lonely
lonely-IsSound = record { sched = lonely_sched; ring = omega arith }

valid_user_ptr_iff_example :
    (valid_user_ptr 0x400ffff0 16 ≡ true)
    ↔ ((user_virt_base ≤ 0x400ffff0) × (0x400ffff0 + 16 ≤ user_virt_base + user_region_size))
valid_user_ptr_iff_example = valid_user_ptr_iff 0x400ffff0 16 (omega arith) (omega arith)

sys_write_lem_example :
    ((user_virt_base ≤ 0x40000100)
      × (0x40000100 + 32 ≤ user_virt_base + user_region_size)
      × (sys_write typed 1 0x40000100 32
          ≡ returned
              (record typed { out = typed.out ++ crlf (bytes_at (user_mem typed) 0x40000100 32) })
              32))
    ⊎ (((0x40000100 < user_virt_base) ⊎ (user_virt_base + user_region_size < 0x40000100 + 32))
        × (sys_write typed 1 0x40000100 32 ≡ returned typed e_fault))
sys_write_lem_example = sys_write_lem typed 1 0x40000100 32 (omega arith) (omega arith)

sys_ps_lem_example :
    let text = take (12 - 1) (listing typed.sched.processes 0 num_processes) in
    sys_ps typed 0x40000100 12 ≡ (
      if valid_user_ptr 0x40000100 12
      then returned (with_user_mem typed (stored (user_mem typed) 0x40000100 text)) (length text)
      else returned typed e_fault)
sys_ps_lem_example = sys_ps_lem typed 0x40000100 12

sys_read_transfers_example :
    let got = take 5 (contents typed.ring) in
    (sys_read 6 typed 0 0x40000100 5
      ≡ returned (copied typed 0x40000100 (drain (length got) typed.ring) got) (length got))
    × (contents (drain (length got) typed.ring) ≡ drop 5 (contents typed.ring))
    × (length got ≡ min 5 (count typed.ring))
unfolding valid_user_ptr
sys_read_transfers_example =
    sys_read_transfers 6 typed 2 0 0x40000100 5 refl typed-IsSound.ring (λ e. ground arith)
      (omega arith) refl (omega arith)

sys_read_parks_example :
    (n : ℕ) × (s : Sched) × (sys_read 1 quiet 0 0x40000100 1 ≡ parked (with_sched quiet s) (2, n))
    × (is_runnable (state_of quiet.sched n) ≡ true)
    × (n ≢ 2)
    × (s.current ≡ some n)
    × (s.blocked_reader ≡ some 2)
    × (state_of s 2 ≡ blocked)
unfolding valid_user_ptr
sys_read_parks_example =
    sys_read_parks 0 quiet 2 0 0 0x40000100 1 quiet-IsSound refl refl (omega arith) (omega arith)
      refl (omega arith) refl

sys_read_hangs_example : (k : Kernel) × (sys_read 1000 lonely 0 0x40000100 1 ≡ spinning k)
unfolding valid_user_ptr
sys_read_hangs_example =
    sys_read_hangs 1000 lonely 2 0 0x40000100 1 lonely-IsSound refl refl (λ i ne. ground arith)
      (omega arith) refl

-- sys_ticks, with the arguments left in the registers.
abbrev ticks_call : ExceptionContext
ticks_call = record {
  spsr = 16;
  r = 9 ∷ 1 ∷ 2 ∷ 3 ∷ 4 ∷ 5 ∷ 6 ∷ 7 ∷ 8 ∷ 9 ∷ 10 ∷ 11 ∷ 12 ∷ [];
  lr = 0x40000010;
}

dispatch_runs : syscall_dispatch 0 typed ticks_call ≡ finished typed (with_r0 ticks_call 41)
unfolding syscall_dispatch call syscall_table sys_ticks
dispatch_runs = refl

call-IsSafe_example : IsSafe 2 typed (kernel_of (call 0 typed ticks_call))
call-IsSafe_example = call-IsSafe 0 typed ticks_call 2 typed-IsSound refl small
  where
    small : (i : ℕ) → reg ticks_call i < u32_mod
    small i = get_or-All (λ v. v < u32_mod) ticks_call.r i 0 (omega arith) (omega arith)
