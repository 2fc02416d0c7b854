-- ===== src/Proc.antt =====
-- kernel/include/proc.h: the process control block, and the process table.
use refix_os.Common.{ℕ, Bool, true, false, List, Option, ◌==◌, if◌then◌else◌}

-- NUM_PROCESSES
abbrev pub num_processes : ℕ
num_processes = 3

pub data TaskState : Type 0 where
  ready running blocked dead : TaskState

-- `proc_context_t`: r0 to r12, which only the boot code writes, and the parked banked registers.
pub record ProcContext : Type 0 where
  pub r : List ℕ
  pub sp_svc : ℕ
  pub lr_svc : ℕ
  pub spsr : ℕ
  pub sp_usr : ℕ
  pub lr_usr : ℕ

-- `process_t`. A name that is a null pointer is `none`.
pub record Process : Type 0 where
  pub ctx : ProcContext
  pub pid : ℕ
  pub state : TaskState
  pub name : Option (List ℕ)
  pub pgd : ℕ
  pub pgd_pa : ℕ
  pub kstack_base : ℕ
  pub kstack_size : ℕ
  pub user_entry : ℕ
  pub user_stack_top : ℕ
  pub user_phys_base : ℕ

-- The tests `p->state == TASK_…`.
abbrev pub is_running : TaskState → Bool
is_running running = true
is_running _ = false

abbrev pub is_blocked : TaskState → Bool
is_blocked blocked = true
is_blocked _ = false

abbrev pub is_dead : TaskState → Bool
is_dead dead = true
is_dead _ = false

-- `processes[i]` for every i; the code reads it below `num_processes` only.
abbrev pub Table : Type 0
Table = ℕ → Process

abbrev pub update : Table → ℕ → Process → Table
update t i p j = if j == i then p else t j

-- `processes[i].state = st`
abbrev pub set_state : Table → ℕ → TaskState → Table
set_state t i st = update t i (record (t i) { state = st })
