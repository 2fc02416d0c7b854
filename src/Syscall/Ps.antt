-- ===== src/Syscall/Ps.antt =====
-- sys_ps: the listing of the process table, written into the caller's buffer.
pub mod Listing
use refix_os.Common.{
  ℕ, Option, if◌then◌else◌, Bool, List, ◌+◌, leb, ◌∷◌, ◌%◌, suc, codes, true, ltb, zero, not, some,
  none, [], false,
}
use refix_os.Proc.{Table, Process, TaskState, ready, running, blocked, dead, num_processes}
use refix_os.Kernel.{poke, Kernel, user_mem, with_user_mem}
use refix_os.Syscall.Outcome.{Outcome, returned, e_fault}
use refix_os.Syscall.Pointer.{valid_user_ptr}

-- The caller's memory, the count `n`, and whether a `break` has left the loop over the processes.
pub record Cursor : Type 0 where
  pub memory : ℕ → ℕ
  pub n : ℕ
  pub stopped : Bool

-- `out[n++] = c`
abbrev pub write : ℕ → Cursor → ℕ → Cursor
write buf f c = record f { memory = poke f.memory (buf + f.n) c; n = f.n + 1 }

-- `if (n + 1 >= size) break; out[n++] = c;`
pub put : ℕ → ℕ → Cursor → ℕ → Cursor
put buf size f c =
    if f.stopped
    then f
    else if leb size (f.n + 1)
    then record f { stopped = true }
    else write buf f c

-- `for (; *c && n + 1 < size; c++) out[n++] = *c;`
pub copy_from : ℕ → ℕ → Cursor → List ℕ → Cursor
copy_from buf size f [] = f
copy_from buf size f (c ∷ s) = elim (ltb (f.n + 1) size) [
  | true ↦ copy_from buf size (write buf f c) s
  | false ↦ f
]

pub copy : ℕ → ℕ → Cursor → List ℕ → Cursor
copy buf size f s = if f.stopped then f else copy_from buf size f s

-- The table `state_name` of sys_ps.
abbrev pub state_name : TaskState → List ℕ
state_name ready = codes "READY  "
state_name running = codes "RUNNING"
state_name blocked = codes "BLOCKED"
state_name dead = codes "DEAD   "

abbrev pub name_or : Option (List ℕ) → List ℕ
name_or none = codes "?"
name_or (some s) = s

-- `'0' + (char)p->pid`, stored in a char.
abbrev pub pid_char : ℕ → ℕ
pid_char pid = (b'0' + pid % 256) % 256

-- The body of the loop.
pub put_line : ℕ → ℕ → Cursor → Process → Cursor
put_line buf size f p =
    let f1 = put buf size f (pid_char p.pid) in
    let f2 = put buf size f1 b' ' in
    let f3 = copy buf size f2 (name_or p.name) in
    let f4 = put buf size f3 b' ' in
    let f5 = copy buf size f4 (state_name p.state) in put buf size f5 10

-- The loop, with the rounds that are left.
pub put_lines : ℕ → ℕ → Table → ℕ → ℕ → Cursor → Cursor
put_lines buf size t i zero f = f
put_lines buf size t i (suc left) f = put_lines buf size t (i + 1) left (put_line buf size f (t i))

-- `n = 0`, before the loop.
abbrev pub start : (ℕ → ℕ) → Cursor
start m = record { memory = m; n = 0; stopped = false }

unfoldable pub sys_ps : Kernel → ℕ → ℕ → Outcome
sys_ps k buf_addr size =
    if not (valid_user_ptr buf_addr size)
    then returned k e_fault
    else let f =
        put_lines buf_addr size k.sched.processes 0 num_processes
          (record { memory = user_mem k; n = 0; stopped = false }) in
      returned (with_user_mem k f.memory) f.n
