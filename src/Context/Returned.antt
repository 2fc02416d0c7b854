-- ===== src/Context/Returned.antt =====
-- What user mode sees of a system call.
use refix_os.Context.{UserState, store_words, load_words}
use refix_os.Context.Entry.{svc_entry, context_at, put_context, svc_exit, exception_entry_svc}
use refix_os.Context.Frames.{
  store_words_at, load_words_lem, get_or-append_left, get_or-append_right, pushed_twice,
}
use refix_os.Syscall.Dispatch.{ExceptionContext, syscall_dispatch, call, with_r0, deliver}
use refix_os.Syscall.Outcome.{returned}
use refix_os.Exception.{Handled, handle_svc, schedule_tail, after_dispatch}
use refix_os.Boot.{Words}
use refix_os.Common.{
  ℕ, List, length, ◌≡◌, ◌+◌, ◌<◌, ◌*◌, u32_mod, ◌≤◌, get_or, ◌++◌, subst, arith, ◌∙◌, length-append,
  ap, add32, ◌∷◌, [], suc, sub32, sym, set, ◌-◌, length-set,
}
use refix_os.Kernel.{Kernel}
use refix_os.Sched.{schedule}

-- The frame of a process in user mode.
abbrev pub frame_of_user : UserState → ExceptionContext
frame_of_user u = record { spsr = u.cpsr; r = u.r; lr = u.pc }

-- A run of registers and a word behind it, that memory holds from `a` on.
pub popped :
    (m : Words) (a n : ℕ) (vs ws : List ℕ)
    → length vs ≡ n
    → a + n * 4 ≤ u32_mod
    → ((i : ℕ) → i < n → m (a + i * 4) ≡ get_or (vs ++ ws) i 0)
    → load_words m a n ≡ vs
popped m a n vs ws l h f =
    subst (λ k. load_words m a k ≡ vs) l
      (load_words_lem m a vs (omega (arith, l))
        (λ i b. f i (omega (arith, l)) ∙ get_or-append_left vs ws i b))

-- Memory holds the words from `a` on.
abbrev pub Holds : Words → ℕ → List ℕ → Type 0
Holds m a vs = (i : ℕ) → i < length vs → m (a + i * 4) ≡ get_or vs i 0

abbrev pub words_of : ExceptionContext → List ℕ
words_of ctx = ctx.spsr ∷ (ctx.r ++ ctx.lr ∷ [])

length-words_of : (ctx : ExceptionContext) → length ctx.r ≡ 13 → length (words_of ctx) ≡ 15
length-words_of ctx l = omega (arith, l, length-append ctx.r (ctx.lr ∷ []))

module _ (m : Words) (a : ℕ) (ctx : ExceptionContext) (l : length ctx.r ≡ 13)
    (fits : a + 60 < u32_mod) (held : Holds m a (words_of ctx)) where
  first_word : m a ≡ ctx.spsr
  first_word = ap m (omega arith) ∙ held 0 (omega arith)

  registers_at : (b : ℕ) → b ≡ a + 4 → load_words m b 13 ≡ ctx.r
  registers_at b e =
      popped m b 13 ctx.r (ctx.lr ∷ []) l (omega arith)
        (λ i h. ap m (omega arith) ∙ held (suc i) (omega (arith, length-words_of ctx l)))

  last_word : (b : ℕ) → b ≡ a + 56 → m b ≡ ctx.lr
  last_word b e =
      ap m (omega arith)
      ∙ held 14 (omega (arith, length-words_of ctx l))
      ∙ get_or-append_right ctx.r (ctx.lr ∷ []) 0 13 (omega (arith, l))

  pub context_at_lem : context_at m a ≡ ctx
  unfolding context_at
  context_at_lem = λ i. record {
    spsr = first_word i;
    r = registers_at (add32 a 4) (omega arith) i;
    lr = last_word (add32 a 56) (omega arith) i;
  }

  svc_exit_lem :
      (u : UserState)
      → svc_exit m a u ≡ (record u { r = ctx.r; pc = ctx.lr; cpsr = ctx.spsr }, a + 60)
  unfolding svc_exit
  svc_exit_lem u =
      let e : add32 a 4 ≡ a + 4 = omega arith in
      let top : add32 (add32 a 4) (14 * 4) ≡ a + 60 = omega arith in
      λ i. (
        record u {
          r = registers_at (add32 a 4) e i;
          pc = last_word (add32 (add32 a 4) (13 * 4)) (omega arith) i;
          cpsr = first_word i;
        },
        top i,
      )

put_context-Holds :
    (m : Words) (a : ℕ) (ctx : ExceptionContext)
    → length ctx.r ≡ 13
    → a + 60 < u32_mod
    → Holds (put_context m a ctx) a (words_of ctx)
unfolding put_context
put_context-Holds m a ctx l h i b =
    store_words_at m a (words_of ctx) i (omega (arith, length-words_of ctx l)) b

pub frame_at :
    (m : Words) (a : ℕ) (u : UserState) → a + 60 < u32_mod → (svc_entry m (a + 60) u).1 ≡ a
unfolding svc_entry
frame_at m a u h = omega arith

pub svc_entry-Holds :
    (m : Words) (a : ℕ) (u : UserState)
    → length u.r ≡ 13
    → a + 60 < u32_mod
    → Holds (svc_entry m (a + 60) u).0 a (words_of (frame_of_user u))
unfolding svc_entry
svc_entry-Holds m a u l h i b =
    let first : sub32 (a + 60) (14 * 4) ≡ a + 4 = omega arith in
    let second : sub32 (sub32 (a + 60) (14 * 4)) 4 ≡ a = omega arith in
    let n = length-append u.r (u.pc ∷ []) in
    subst
      (λ c.
        store_words (store_words m (sub32 (a + 60) (14 * 4)) (u.r ++ u.pc ∷ [])) c (u.cpsr ∷ [])
          (a + i * 4)
        ≡ get_or (words_of (frame_of_user u)) i 0)
      (sym second)
      (pushed_twice m a (sub32 (a + 60) (14 * 4)) (u.cpsr ∷ []) (u.r ++ u.pc ∷ []) i (omega arith)
        (omega (arith, n)) (omega (arith, n)))

handle_returned :
    (fuel : ℕ) (k k' : Kernel) (ctx : ExceptionContext) (v : ℕ)
    → call fuel k ctx ≡ returned k' v
    → handle_svc fuel k ctx ≡ (schedule_tail k' (schedule k'.sched), with_r0 ctx v)
unfolding handle_svc syscall_dispatch
handle_returned fuel k k' ctx v e = ap (λ o. after_dispatch ctx (deliver ctx o)) e

-- What follows the handler, which has left `hc`.
abbrev left_with : Words → UserState → ℕ → Handled × ExceptionContext → Handled × UserState × ℕ
left_with m u a hc = let (u', sp') = svc_exit (put_context m a hc.1) a u in (hc.0, u', sp')

answers_at :
    (fuel : ℕ) (k k' : Kernel) (m : Words) (a : ℕ) (u : UserState) (v : ℕ)
    → length u.r ≡ 13
    → a + 60 < u32_mod
    → call fuel k (frame_of_user u) ≡ returned k' v
    → exception_entry_svc fuel k m (a + 60) u
      ≡ (schedule_tail k' (schedule k'.sched), record u { r = set u.r 0 v }, a + 60)
unfolding exception_entry_svc
answers_at fuel k k' m a u v l h e =
    let m1 = (svc_entry m (a + 60) u).0 in
    let at : (svc_entry m (a + 60) u).1 ≡ a = frame_at m a u h in
    let ctx = with_r0 (frame_of_user u) v in
    let seen = context_at_lem m1 a (frame_of_user u) l h (svc_entry-Holds m a u l h) in
    let l' : length ctx.r ≡ 13 = length-set u.r 0 v ∙ l in
    let left = svc_exit_lem (put_context m1 a ctx) a ctx l' h (put_context-Holds m1 a ctx l' h) u in
    ap (λ q. left_with m1 u q (handle_svc fuel k (context_at m1 q))) at
    ∙ ap (λ c. left_with m1 u a (handle_svc fuel k c)) seen
    ∙ ap (left_with m1 u a) (handle_returned fuel k k' (frame_of_user u) v e)
    ∙ (λ i. (schedule_tail k' (schedule k'.sched), (left i).0, (left i).1))

-- What user mode finds in its registers when the handler of a system call returns v, from the SVC
-- instruction to the one behind it: r0 is v, and r1 to r12, SP, LR, the status and the address to go
-- on at are as before, with the kernel stack empty again. The handler sees the registers of the
-- caller as its arguments, and the call ends with the scheduler. There are 60 bytes left on the
-- kernel stack.
pub svc_answers :
    (fuel : ℕ) (k k' : Kernel) (m : Words) (sp : ℕ) (u : UserState) (v : ℕ)
    → length u.r ≡ 13
    → 60 ≤ sp
    → sp < u32_mod
    → call fuel k (frame_of_user u) ≡ returned k' v
    → exception_entry_svc fuel k m sp u
      ≡ (schedule_tail k' (schedule k'.sched), record u { r = set u.r 0 v }, sp)
svc_answers fuel k k' m sp u v l lo hi e =
    let q : sp - 60 + 60 ≡ sp = omega arith in
    subst
      (λ t.
        exception_entry_svc fuel k m t u
        ≡ (schedule_tail k' (schedule k'.sched), record u { r = set u.r 0 v }, t))
      q (answers_at fuel k k' m (sp - 60) u v l (omega arith) e)
