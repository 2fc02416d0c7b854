-- ===== src/Samples.antt =====
-- Kernels in concrete states, which the tests of several parts share.
pub mod Chips
use refix_os.Common.{ℕ, refl, [], some, none, ◌==◌, if◌then◌else◌, codes, replicate, arith, false}
use refix_os.Proc.{TaskState, Process, running, ready, blocked}
use refix_os.Kernel.{Kernel}
use refix_os.Kernel.Sound.{IsSound}
use refix_os.Timer.{on_scheduler_tick}

abbrev pub entry : ℕ → TaskState → Process
entry i st = record {
  ctx = record { r = []; sp_svc = 0; lr_svc = 0; spsr = 16; sp_usr = 0; lr_usr = 0 };
  pid = i;
  state = st;
  name = some (codes "app");
  pgd = 0;
  pgd_pa = 0;
  kstack_base = 0;
  kstack_size = 8192;
  user_entry = 0x40000000;
  user_stack_top = 0x40100000;
  user_phys_base = 0x70200000;
}

-- Process 1 runs, and the other two are in state `st`.
abbrev pub kernel_of_others : TaskState → Kernel
kernel_of_others st = record {
  sched = record {
    processes = λ i. entry i (if i == 1 then running else st);
    current = some 1;
    need_reschedule = false;
    switch_count = 7;
    blocked_reader = none;
    wake_hint = none;
  };
  ring = record { rx_buf = replicate 128 0; rx_head = 0; rx_tail = 0 };
  out = [];
  timer = record { tick_count = 0; user_handler = some on_scheduler_tick };
  mem = λ i va. 0;
}

pub busy-IsSound : IsSound (kernel_of_others ready)
busy-IsSound = record {
  sched = record {
    pids = λ i h. refl;
    current_in = λ c e. ground arith;
    reader_in = λ c e. ground arith;
    hint_in = λ c e. ground arith;
    one_running = λ i e. ground arith;
    reader_sleeps = λ c e. ground arith;
  };
  ring = omega arith;
}

pub idle-IsSound : IsSound (kernel_of_others blocked)
idle-IsSound = record {
  sched = record {
    pids = λ i h. refl;
    current_in = λ c e. ground arith;
    reader_in = λ c e. ground arith;
    hint_in = λ c e. ground arith;
    one_running = λ i e. ground arith;
    reader_sleeps = λ c e. ground arith;
  };
  ring = omega arith;
}

-- Process 1 runs, process 2 waits for input, and process 0 is READY.
abbrev pub reading : Kernel
reading = record (kernel_of_others ready) {
  sched = record {
    processes = λ i. entry i (if i == 1 then running else if i == 2 then blocked else ready);
    current = some 1;
    need_reschedule = false;
    switch_count = 9;
    blocked_reader = some 2;
    wake_hint = none;
  };
}

pub reading-IsSound : IsSound reading
reading-IsSound = record {
  sched = record {
    pids = λ i h. refl;
    current_in = λ c e. ground arith;
    reader_in = λ c e. ground arith;
    hint_in = λ c e. ground arith;
    one_running = λ i e. ground arith;
    reader_sleeps = λ c e. ground arith;
  };
  ring = omega arith;
}
