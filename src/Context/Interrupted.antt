-- ===== src/Context/Interrupted.antt =====
-- What the end of the interrupt entry gives back to user mode.
use refix_os.Context.{Core, UserState, store_words, ret_from_first_entry}
use refix_os.Context.Entry.{irq_entry, irq_exit}
use refix_os.Context.Returned.{popped}
use refix_os.Context.Frames.{pushed_twice, get_or-append_right}
use refix_os.Common.{
  ◌≤◌, ℕ, List, length, ◌<◌, ◌≡◌, ◌++◌, u32_mod, ◌∷◌, ◌-◌, [], arith, ◌+◌, ◌∙◌, ◌*◌, get_or, sub32,
  ap, add32, length-append, subst, sym, append_assoc,
}

-- The 16 words that an interrupt pushes.
abbrev irq_words : Core → UserState → List ℕ
irq_words s u = u.r ++ (s.cpu.lr ∷ u.pc ∷ u.cpsr ∷ [])

irq_entry-Holds :
    (s : Core) (u : UserState) (i : ℕ)
    → length u.r ≡ 13
    → u.pc < u32_mod
    → 64 ≤ s.cpu.sp
    → s.cpu.sp < u32_mod
    → i < 16
    → (irq_entry s u).memory (s.cpu.sp - 64 + i * 4) ≡ get_or (irq_words s u) i 0
unfolding irq_entry
irq_entry-Holds s u i l pc lo hi h =
    let first : sub32 s.cpu.sp (2 * 4) ≡ s.cpu.sp - 8 = omega arith in
    let second : sub32 (sub32 s.cpu.sp (2 * 4)) (14 * 4) ≡ s.cpu.sp - 64 = omega arith in
    let back : sub32 (add32 u.pc 4) 4 ≡ u.pc = omega arith in
    let n = length-append u.r (s.cpu.lr ∷ []) in
    let vs = sub32 (add32 u.pc 4) 4 ∷ u.cpsr ∷ [] in
    subst
      (λ c.
        store_words (store_words s.memory (sub32 s.cpu.sp (2 * 4)) vs) c (u.r ++ s.cpu.lr ∷ [])
          (s.cpu.sp - 64 + i * 4)
        ≡ get_or (irq_words s u) i 0)
      (sym second)
      (pushed_twice s.memory (s.cpu.sp - 64) (sub32 s.cpu.sp (2 * 4)) (u.r ++ s.cpu.lr ∷ []) vs i
          (omega (arith, n)) (omega (arith, n)) (omega (arith, n))
        ∙ ap (λ ws. get_or ws i 0) (append_assoc u.r (s.cpu.lr ∷ []) vs)
        ∙ ap (λ q. get_or (u.r ++ (s.cpu.lr ∷ q ∷ u.cpsr ∷ [])) i 0) back)

pub irq_entry-sp :
    (s : Core) (u : UserState)
    → 64 ≤ s.cpu.sp
    → s.cpu.sp < u32_mod
    → (irq_entry s u).cpu.sp ≡ s.cpu.sp - 64
unfolding irq_entry
irq_entry-sp s u lo hi = omega arith

-- What user mode sees of an interrupt: nothing. The code that exception_entry_irq ends with finds
-- r0 to r12, SP, LR, the status and the interrupted address again and leaves the kernel stack as it
-- was before, if the stack pointer, the 64 bytes that the entry has pushed and the banked registers
-- are what they were after the entry. There are 64 bytes left on the kernel stack.
pub irq_returns :
    (s t : Core) (u : UserState)
    → length u.r ≡ 13
    → u.pc < u32_mod
    → 64 ≤ s.cpu.sp
    → s.cpu.sp < u32_mod
    → t.cpu.sp ≡ (irq_entry s u).cpu.sp
    → ((x : ℕ) → s.cpu.sp - 64 ≤ x → x < s.cpu.sp → t.memory x ≡ (irq_entry s u).memory x)
    → t.cpu.sp_usr ≡ u.sp
    → t.cpu.lr_usr ≡ u.lr
    → irq_exit t ≡ (u, s.cpu.sp)
unfolding irq_exit ret_from_first_entry
irq_returns s t u l pc lo hi sp same usp ulr =
    let at : t.cpu.sp ≡ s.cpu.sp - 64 = sp ∙ irq_entry-sp s u lo hi in
    let held : (i : ℕ) → i < 16 → t.memory (t.cpu.sp + i * 4) ≡ get_or (irq_words s u) i 0 = λ i h.
      ap t.memory (omega arith)
      ∙ same (s.cpu.sp - 64 + i * 4) (omega arith) (omega arith)
      ∙ irq_entry-Holds s u i l pc lo hi h in
    let registers =
      popped t.memory t.cpu.sp 13 u.r (s.cpu.lr ∷ u.pc ∷ u.cpsr ∷ []) l (omega arith)
        (λ i h. held i (omega arith)) in
    let behind : (i j : ℕ)
        → j < 16
        → j ≡ 13 + i
        → t.memory (add32 t.cpu.sp (j * 4)) ≡ get_or (s.cpu.lr ∷ u.pc ∷ u.cpsr ∷ []) i 0 =
      λ i j h e.
        ap t.memory (omega arith)
        ∙ held j h
        ∙ get_or-append_right u.r (s.cpu.lr ∷ u.pc ∷ u.cpsr ∷ []) i j (omega (arith, l)) in
    let pc_back : t.memory (add32 t.cpu.sp (14 * 4)) ≡ u.pc =
      behind 1 14 (omega arith) (omega arith) in
    let cpsr_back : t.memory (add32 t.cpu.sp (15 * 4)) ≡ u.cpsr =
      behind 2 15 (omega arith) (omega arith) in
    let top : add32 t.cpu.sp (16 * 4) ≡ s.cpu.sp = omega arith in
    λ i. (
      record { r = registers i; pc = pc_back i; cpsr = cpsr_back i; sp = usp i; lr = ulr i },
      top i,
    )
