-- ===== src/Context/Tests.antt =====
-- Switching between two processes.
use Prim.Native.Nat.{bit_or}
use refix_os.Context.{Core, context_switch, ret_from_first_entry, UserState}
use refix_os.Context.Restored.{switch_back}
use refix_os.Context.FirstEntry.{first_entry}
use refix_os.Boot.{process_build_initial_frame}
use refix_os.Samples.{entry, kernel_of_others}
use refix_os.Proc.{Process, ready}
use refix_os.Common.{◌∷◌, some, [], ◌≡◌, arith, replicate, inr, refl, ◌+◌, inl, set, ◌-◌}
use refix_os.Syscall.Pointer.{user_virt_base, user_region_size}
use refix_os.Syscall.Dispatch.{call, syscall_table}
use refix_os.Context.Entry.{irq_exit, exception_entry_svc, irq_entry}
use refix_os.Context.Returned.{frame_of_user, svc_answers}
use refix_os.Syscall.Control.{sys_getpid}
use refix_os.Exception.{schedule_tail}
use refix_os.Sched.{schedule}
use refix_os.Syscall.Outcome.{returned}
use refix_os.Context.Preempted.{preempted_returns}

-- Process 0 has run up to a call of context_switch, with its stack pointer at 0x9000.
abbrev running_core : Core
running_core = record {
  cpu = record {
    saved = 4 ∷ 5 ∷ 6 ∷ 7 ∷ 8 ∷ 9 ∷ 10 ∷ 11 ∷ [];
    lr = 0xC0001234;
    sp = 0x9000;
    sp_usr = 0x400FFF00;
    lr_usr = 0x40000020;
    ttbr0 = 0x7002004A;
  };
  memory = λ a. 7;
  processes = λ i. entry i ready;
}

-- Later another process runs on a stack below 0x7000.
abbrev returning_core : Core
returning_core = record {
  cpu = record {
    saved = 0 ∷ 0 ∷ 0 ∷ 0 ∷ 0 ∷ 0 ∷ 0 ∷ 0 ∷ [];
    lr = 0;
    sp = 0x7000;
    sp_usr = 0;
    lr_usr = 0;
    ttbr0 = 0;
  };
  memory = (context_switch running_core (some 0) 1).memory;
  processes = (context_switch running_core (some 0) 1).processes;
}

switch_back_example :
    let back = (context_switch returning_core (some 1) 0).cpu in
    (back.saved ≡ running_core.cpu.saved)
    × (back.lr ≡ running_core.cpu.lr)
    × (back.sp ≡ running_core.cpu.sp)
    × (back.sp_usr ≡ running_core.cpu.sp_usr)
    × (back.lr_usr ≡ running_core.cpu.lr_usr)
    × (back.ttbr0 ≡ bit_or (running_core.processes 0).pgd_pa 0x4A)
switch_back_example =
    switch_back running_core returning_core (some 1) 0 1 refl refl (omega arith) (omega arith)
      (omega arith) (omega arith) refl (λ x a b. refl) (λ e. ground (arith, e)) (inr (omega arith))

-- A process with a stack from 0x4000 to 0x6000.
abbrev newcomer : Process
newcomer = record (entry 2 ready) {
  kstack_base = 0x4000;
  kstack_size = 0x2000;
  pgd_pa = 0x70020000;
}

abbrev started_core : Core
started_core = record returning_core {
  memory = (process_build_initial_frame (λ a. 7) newcomer 0xC0000100).1;
  processes = λ i. (process_build_initial_frame (λ a. 7) newcomer 0xC0000100).0;
}

first_entry_example :
    let s = context_switch started_core (some 1) 2 in
    (s.cpu.lr ≡ 0xC0000100)
    × (s.cpu.ttbr0 ≡ bit_or 0x70020000 0x4A)
    × (ret_from_first_entry s ≡ (
      record {
        r = replicate 13 0;
        pc = newcomer.user_entry;
        cpsr = 0x10;
        sp = user_virt_base + user_region_size;
        lr = 0;
      },
      0x6000,
    ))
first_entry_example =
    first_entry (λ a. 7) newcomer 0xC0000100 started_core (some 1) 2 (omega arith) (omega arith)
      refl (λ x a b. refl) refl (omega arith) (omega arith) (inl (omega arith))
      (λ e. ground (arith, e))

-- Process 1 asks for its pid.
abbrev caller : UserState
caller = record {
  r = 100 ∷ 101 ∷ 102 ∷ 103 ∷ 104 ∷ 105 ∷ 106 ∷ 1 ∷ 108 ∷ 109 ∷ 110 ∷ 111 ∷ 112 ∷ [];
  pc = 0x40000010;
  cpsr = 16;
  sp = 0x400FFF00;
  lr = 0x40000444;
}

getpid_runs :
    call 0 (kernel_of_others ready) (frame_of_user caller) ≡ returned (kernel_of_others ready) 1
unfolding call syscall_table sys_getpid
getpid_runs = refl

svc_answers_example : exception_entry_svc 0 (kernel_of_others ready) (λ a. 7) 0x6000 caller ≡ (
  schedule_tail (kernel_of_others ready) (schedule (kernel_of_others ready).sched),
  record caller { r = set caller.r 0 1 },
  0x6000,
)
svc_answers_example =
    svc_answers 0 (kernel_of_others ready) (kernel_of_others ready) (λ a. 7) 0x6000 caller 1 refl
      (omega arith) (omega arith) getpid_runs

-- The core while `caller` runs.
abbrev user_core : Core
user_core = record running_core {
  cpu = record (running_core.cpu) { sp_usr = caller.sp; lr_usr = caller.lr };
}

-- The handler calls context_switch with the stack pointer at 0x8000.
abbrev calling : Core
calling = record (irq_entry user_core caller) { cpu = record (user_core.cpu) { sp = 0x8000 } }

abbrev other_core : Core
other_core = record (context_switch calling (some 0) 1) { cpu = returning_core.cpu }

abbrev ending : Core
ending = record (context_switch other_core (some 1) 0) {
  cpu = record ((context_switch other_core (some 1) 0).cpu) { sp = 0x9000 - 64 };
}

preempted_returns_example : irq_exit ending ≡ (caller, 0x9000)
preempted_returns_example =
    preempted_returns user_core calling other_core ending caller (some 1) 0 1 refl (omega arith)
      (omega arith) refl (omega arith) (omega arith) refl refl (λ x a b. refl) refl (omega arith)
      (omega arith) (λ e. ground (arith, e)) (inr (omega arith)) refl (λ x a b. refl) refl refl refl
      (λ x a b. refl)
