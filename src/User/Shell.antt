-- ===== src/User/Shell.antt =====
-- user/apps/shell/shell.c: the line editor and the commands. What a command does is the sequence of
-- its system calls; the results of sys_ps and sys_kill are arguments.
pub mod Editor
pub mod Words
pub mod Session
pub mod Typed
use refix_os.Common.{
  ℕ, zero, suc, ◌+◌, ◌-◌, ◌<◌, List, [], ◌∷◌, ◌++◌, Option, some, none, Bool, true, false, not,
  ◌&&◌, ◌||◌, ◌==◌, ltb, if◌then◌else◌, get_or, set, drop, take, codes, length,
}
use refix_os.User.Ulib.{head, ulib_strlen, ulib_strncmp, ulib_puts, ulib_atoi}

pub data Effect : Type 0 where
  write : List ℕ → Effect
  kill : ℕ → Effect
  ps : ℕ → Effect
  -- a store through a null pointer
  null_store : Effect
  -- undefined behaviour
  undefined : Effect

-- What the kernel answers: the text that sys_ps stores, or none on an error, the value of sys_kill,
-- and whether the shell still runs after it.
pub record Answers : Type 0 where
  pub ps_text : Option (List ℕ)
  pub kill_rc : ℕ → ℕ
  pub survives : ℕ → Bool

abbrev pub line_max : ℕ
line_max = 64

abbrev pub puts : List ℕ → Effect
puts s = write (ulib_puts s)

unfoldable pub prompt : List Effect
prompt = puts (codes "shell> ") ∷ []

abbrev pub is_blank : ℕ → Bool
is_blank c = (c == b' ') || (c == 9)

unfoldable pub skip_spaces : List ℕ → List ℕ
skip_spaces [] = []
skip_spaces (c ∷ s) = let rest = skip_spaces s in if is_blank c then rest else c ∷ s

unfoldable pub match_word : List ℕ → List ℕ → Option (List ℕ)
match_word s word =
    let n = ulib_strlen word in
    if not (ulib_strncmp s word n == 0)
    then none
    else if not (get_or s n 0 == 0) && not (is_blank (get_or s n 0))
    then none
    else some (skip_spaces (drop n s))

-- An em dash, in UTF-8.
abbrev pub dash : List ℕ
dash = 226 ∷ 128 ∷ 148 ∷ []

unfoldable pub cmd_help : List Effect
cmd_help =
    puts (
      codes "commands:\n"
      ++ codes "  help         "
      ++ dash
      ++ codes " this list\n"
      ++ codes "  ps           "
      ++ dash
      ++ codes " list processes\n"
      ++ codes "  kill <pid>   "
      ++ dash
      ++ codes " kill a process\n"
      ++ codes "  echo <text>  "
      ++ dash
      ++ codes " print text\n"
      ++ codes "  clear        "
      ++ dash
      ++ codes " clear the screen\n"
      ++ codes "  crash        "
      ++ dash
      ++ codes " dereference NULL (demo)\n")
    ∷ []

abbrev write_text : Option (List ℕ) → List Effect
write_text none = []
write_text (some text) = if ltb 0 (length text) then write text ∷ [] else []

unfoldable pub cmd_ps : Answers → List Effect
cmd_ps a = ps 256 ∷ write_text a.ps_text

abbrev pub kill_pid : Answers → Option ℕ → List Effect
kill_pid a none = undefined ∷ []
kill_pid a (some pid) =
    kill pid ∷ (if not (a.kill_rc pid == 0) then puts (codes "kill: bad pid\n") ∷ [] else [])

unfoldable pub cmd_kill : Answers → List ℕ → List Effect
cmd_kill a arg =
    if head arg == 0 then puts (codes "usage: kill <pid>\n") ∷ [] else kill_pid a (ulib_atoi arg)

unfoldable pub cmd_echo : List ℕ → List Effect
cmd_echo arg = puts arg ∷ write (10 ∷ []) ∷ []

unfoldable pub cmd_clear : List Effect
cmd_clear = write (27 ∷ codes "[2J" ++ 27 ∷ codes "[H") ∷ []

unfoldable pub cmd_crash : List Effect
cmd_crash =
    puts (codes "crash: about to NULL-deref " ++ dash ++ codes " kernel should survive\n")
    ∷ null_store
    ∷ []

-- The commands in the order in which `dispatch` tries them.
abbrev pub commands : Answers → List (List ℕ × (List ℕ → List Effect))
commands a =
    (codes "help", λ rest. cmd_help)
    ∷ (codes "ps", λ rest. cmd_ps a)
    ∷ (codes "kill", cmd_kill a)
    ∷ (codes "echo", cmd_echo)
    ∷ (codes "clear", λ rest. cmd_clear)
    ∷ (codes "crash", λ rest. cmd_crash)
    ∷ []

abbrev pub found_or : (List ℕ → List Effect) → Option (List ℕ) → List Effect → List Effect
found_or run (some rest) next = run rest
found_or run none next = next

unfoldable pub try_commands : List (List ℕ × (List ℕ → List Effect)) → List ℕ → List Effect
try_commands [] p = puts (codes "unknown command " ++ dash ++ codes " try 'help'\n") ∷ []
try_commands ((word, run) ∷ cs) p = found_or run (match_word p word) (try_commands cs p)

unfoldable pub dispatch : Answers → List ℕ → List Effect
dispatch a line =
    let p = skip_spaces line in if head p == 0 then [] else try_commands (commands a) p

pub record Shell : Type 0 where
  pub line : List ℕ
  pub n : ℕ

-- One round of the loop of `main`, for a byte that sys_read delivered.
unfoldable pub key : Answers → Shell → ℕ → Shell × List Effect
key a s c =
    if (c == 13) || (c == 10)
    then (
      record { line = set s.line s.n 0; n = 0 },
      puts (13 ∷ 10 ∷ []) ∷ dispatch a (set s.line s.n 0) ++ prompt,
    )
    else if (c == 8) || (c == 127)
    then (if ltb 0 s.n then (record s { n = s.n - 1 }, puts (8 ∷ b' ' ∷ 8 ∷ []) ∷ []) else (s, []))
    else if ltb (s.n + 1) line_max
    then (record { line = set s.line s.n c; n = s.n + 1 }, write (c ∷ []) ∷ [])
    else (s, [])

-- The rounds of the loop, for the bytes that sys_read delivers one by one.
unfoldable pub rounds : Answers → Shell → List ℕ → List Effect
rounds a s [] = []
rounds a s (c ∷ cs) = (key a s c).1 ++ rounds a (key a s c).0 cs

abbrev pub ends : Answers → Effect → Bool
ends a (write s) = false
ends a (kill pid) = not (a.survives pid)
ends a (ps n) = false
ends a null_store = true
ends a undefined = true

-- What happens of a list of effects: all of them up to the end of the shell.
unfoldable pub executed : Answers → List Effect → List Effect
executed a [] = []
executed a (e ∷ es) = let rest = executed a es in e ∷ (if ends a e then [] else rest)

unfoldable pub greeting : Effect
greeting = puts (codes "\nRingNova shell " ++ dash ++ codes " type 'help' for commands\n")

-- `line` is what the stack holds where the buffer is.
unfoldable pub shell_main : Answers → List ℕ → List ℕ → List Effect
shell_main a line cs = executed a (greeting ∷ prompt ++ rounds a (record { line = line; n = 0 }) cs)
