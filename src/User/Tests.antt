-- ===== src/User/Tests.antt =====
-- The user programs at concrete inputs.

use refix_os.Common.{
  ℕ, List, ◌≡◌, refl, [], ◌∷◌, codes, replicate, some, none, arith, ◌+◌, true, ◌++◌,
}
use refix_os.User.Ulib.{
  ulib_putu, ulib_atoi, ulib_strcmp, ulib_strncmp, ulib_strlen, atoi_loop, ulib_tag, ulib_puts,
  putu_digits,
}
use refix_os.User.Shell
use refix_os.User.Shell.{
  Answers, dispatch, key, cmd_kill, try_commands, match_word, skip_spaces, kill, undefined,
  shell_main, executed, greeting, prompt,
}
use refix_os.Syscall.Dispatch.{syscall_dispatch, deliver, reg, with_r0}
use refix_os.Samples.{kernel_of_others, busy-IsSound}
use refix_os.Proc.{ready}
use refix_os.User.Calls.{asked, registers, svc_reaches, Request}
use refix_os.Syscall.Control.{sys_kill}
use refix_os.User.Counter.{delay_wall, count_round, delay_loop}
use refix_os.User.Shell.Session.{session, shell_main_refines}
use refix_os.User.Shell.Typed.{kill_typed}
use refix_os.Exception.Faults.{IsRetiredFor}
use refix_os.Exception.{handle_svc}
use refix_os.User.Start.{noreturn_sys_exit, main_returns}

abbrev answers : Answers
answers = record { ps_text = none; kill_rc = λ pid. 0; survives = λ pid. true }

abbrev fresh : Shell.Shell
fresh = record { line = replicate 64 0; n = 0 }

kill_runs : dispatch answers (codes "  kill  2") ≡ kill 2 ∷ []
unfolding dispatch try_commands match_word skip_spaces ulib_strlen ulib_strncmp cmd_kill ulib_atoi
    atoi_loop
kill_runs = refl

-- Ten digits can be more than an `int` holds.
kill_overflows : dispatch answers (codes "kill 4294967296") ≡ undefined ∷ []
unfolding dispatch try_commands match_word skip_spaces ulib_strlen ulib_strncmp cmd_kill ulib_atoi
    atoi_loop
kill_overflows = refl

strcmp_runs : ulib_strcmp (codes "abc") (codes "abd") ≡ 4294967295
unfolding ulib_strcmp
strcmp_runs = refl

-- `sys_kill(2)` from a process with 100 to 112 in r0 to r12, and the answer 0.
svc_reaches_example :
    (syscall_dispatch 0
        (kernel_of_others ready)
        (asked (registers (λ i. 100 + i) 16 64) (Request.kill 2))
      ≡ deliver
          (asked (registers (λ i. 100 + i) 16 64) (Request.kill 2))
          (sys_kill (kernel_of_others ready) 2))
    × (reg (with_r0 (asked (registers (λ i. 100 + i) 16 64) (Request.kill 2)) 0) 0 ≡ 0)
svc_reaches_example = svc_reaches 0 (kernel_of_others ready) (Request.kill 2) (λ i. 100 + i) 16 64 0

delay_wall_runs : delay_wall 5 (4294967294 ∷ 4294967295 ∷ 1 ∷ 4 ∷ 9 ∷ []) ≡ some (9 ∷ [])
unfolding delay_wall delay_loop
delay_wall_runs = refl

counter_runs :
    (count_round 0 400 (record { count = 7; prev = 100 })).0
    ≡ some (codes "[pid 0] count=7  dt=3000ms\n")
unfolding count_round ulib_tag ulib_puts ulib_strlen ulib_putu putu_digits
counter_runs = refl

abbrev kills_two : List ℕ
kills_two = codes "kill  2" ++ 8 ∷ b'0' ∷ 13 ∷ codes "ps" ++ 10 ∷ []

shell_main_refines_example :
    shell_main answers (replicate 64 7) kills_two
    ≡ executed answers (greeting ∷ prompt ++ session answers [] kills_two)
shell_main_refines_example =
    shell_main_refines answers (replicate 64 7) kills_two refl (omega arith)

kill_typed_example :
    (ds : List ℕ) × (ulib_putu 2147483647 ≡ some ds)
    × (dispatch answers (codes "kill " ++ (ds ++ 0 ∷ 7 ∷ [])) ≡ kill 2147483647 ∷ [])
kill_typed_example = kill_typed answers 2147483647 (7 ∷ []) (omega arith)

-- A program comes back from main while another process can run.
main_returns_example :
    (n : ℕ) × IsRetiredFor
      (kernel_of_others ready).sched
      (kernel_of_others ready).mem
      1
      n
      (handle_svc 0
        (kernel_of_others ready)
        (noreturn_sys_exit (registers (λ i. 7) 0x10 0x40000004))).0
main_returns_example =
    main_returns 0 (kernel_of_others ready) (λ i. 7) 0x10 0x40000004 1 0 busy-IsSound refl
      (omega arith) (omega arith) refl
