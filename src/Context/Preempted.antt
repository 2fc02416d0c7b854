-- ===== src/Context/Preempted.antt =====
-- An interrupt that switches away, and the way back.
use refix_os.Context.{Core, UserState, context_switch, save, load}
use refix_os.Context.Entry.{irq_entry, irq_exit}
use refix_os.Context.Interrupted.{irq_returns, irq_entry-sp}
use refix_os.Context.Restored.{switch_back}
use refix_os.Context.Saved.{save_elsewhere}
use refix_os.Common.{
  Option, ℕ, ◌≤◌, length, ◌≡◌, refl, ◌<◌, u32_mod, ◌+◌, some, ◌-◌, inr, ◌≢◌, ◌⊎◌, arith, inl, ◌∙◌,
  sym, ap,
}

-- Two memories agree on the words from `a` up to `b`.
abbrev pub SameWords : Core → Core → ℕ → ℕ → Type 0
SameWords t s a b = (x : ℕ) → a ≤ x → x < b → t.memory x ≡ s.memory x

-- Pushing the nine words leaves what lies above the stack pointer.
switch_above :
    (c : Core) (p q x : ℕ)
    → length c.cpu.saved ≡ 8
    → 36 ≤ c.cpu.sp
    → c.cpu.sp < u32_mod
    → c.cpu.sp ≤ x
    → (context_switch c (some p) q).memory x ≡ c.memory x
unfolding context_switch load
switch_above c p q x l lo hi h = save_elsewhere c (some p) x l lo hi (inr h)

-- Loading changes no memory.
switch_memory :
    (t : Core) (prev : Option ℕ) (p : ℕ) → (context_switch t prev p).memory ≡ (save t prev).memory
unfolding context_switch load
switch_memory t prev p = refl

-- A preempted process goes on as if nothing had happened. Process p in user mode, as u, is
-- interrupted on core s. The handler calls context_switch on core c, and after another process has
-- switched back to p on core t it goes on until the end of the entry code on core e. Then user mode
-- has r0 to r12, SP, LR, the status and the interrupted address again, and p's kernel stack is as
-- it was, whatever ran in between. The code in between must leave alone the 64 bytes of the frame and
-- the stack above the nine words of the switch, p's entry in the table, and the banked registers on
-- either side of the switch, and must end with the stack pointer at the frame; other processes push
-- their registers on other stacks.
pub preempted_returns :
    (s c t e : Core) (u : UserState) (prev : Option ℕ) (p q : ℕ)
    → length u.r ≡ 13
    → u.pc < u32_mod
    → s.cpu.sp < u32_mod
    → length c.cpu.saved ≡ 8
    → 36 ≤ c.cpu.sp
    → c.cpu.sp + 64 ≤ s.cpu.sp
    → c.cpu.sp_usr ≡ u.sp
    → c.cpu.lr_usr ≡ u.lr
    → SameWords c (irq_entry s u) (s.cpu.sp - 64) s.cpu.sp
    → length t.cpu.saved ≡ 8
    → 36 ≤ t.cpu.sp
    → t.cpu.sp < u32_mod
    → prev ≢ some p
    → (s.cpu.sp ≤ t.cpu.sp - 36) ⊎ (t.cpu.sp ≤ c.cpu.sp - 36)
    → t.processes p ≡ (context_switch c (some p) q).processes p
    → SameWords t (context_switch c (some p) q) (c.cpu.sp - 36) s.cpu.sp
    → e.cpu.sp ≡ s.cpu.sp - 64
    → e.cpu.sp_usr ≡ (context_switch t prev p).cpu.sp_usr
    → e.cpu.lr_usr ≡ (context_switch t prev p).cpu.lr_usr
    → SameWords e (context_switch t prev p) (s.cpu.sp - 64) s.cpu.sp
    → irq_exit e ≡ (u, s.cpu.sp)
preempted_returns s c t e u prev p q l pc hi lc lo' below usp ulr framed lt lot hit ne apart ctx
      kept sp usp' ulr' back =
    let (r1, r2, r3, sp_back, lr_back, r6) =
      switch_back c t prev p q lc lt lo' (omega arith) lot hit ctx (λ x a b. kept x a (omega arith))
        ne (elim apart [ inl h ↦ inl (omega arith) | inr h ↦ inr h ]) in
    irq_returns s e u l pc (omega arith) hi (sp ∙ sym (irq_entry-sp s u (omega arith) hi))
      (λ x a b.
        back x a b
        ∙ ap (λ m. m x) (switch_memory t prev p)
        ∙ save_elsewhere t prev x lt lot hit
            (elim apart [ inl h ↦ inl (omega arith) | inr h ↦ inr (omega arith) ])
        ∙ kept x (omega arith) b
        ∙ switch_above c p q x lc lo' (omega arith) (omega arith)
        ∙ framed x a b)
      (usp' ∙ sp_back ∙ usp) (ulr' ∙ lr_back ∙ ulr)
