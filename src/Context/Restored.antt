-- ===== src/Context/Restored.antt =====
-- Switching away and back.
use Prim.Native.Nat.{bit_or}
use refix_os.Context.{Core, context_switch, load, save, store_words, load_words}
use refix_os.Common.{
  Option, ℕ, length, ◌≡◌, ◌≤◌, ◌<◌, u32_mod, some, ◌-◌, ◌≢◌, ◌⊎◌, List, sub32, arith, ◌+◌, get_or,
  ◌++◌, ◌*◌, refl, ◌∷◌, length-append, [], subst, sym, inl, inr, ◌∙◌, if◌then◌else◌, ap, ◌==◌,
  add32,
}
use refix_os.Context.Frames.{store_words_at, load_words_lem, get_or-append_left}
use refix_os.Context.Saved.{save_other, save_elsewhere}

get_or-append_end : (vs : List ℕ) (v : ℕ) → get_or (vs ++ v ∷ []) (length vs) 0 ≡ v
get_or-append_end [] v = refl
get_or-append_end (w ∷ vs) v = get_or-append_end vs v

-- What the save side leaves of the process that is switched away from.
saved_process :
    (s : Core) (p q : ℕ)
    → 36 ≤ s.cpu.sp
    → s.cpu.sp < u32_mod
    → (context_switch s (some p) q).processes p ≡ record (s.processes p) {
      ctx = record ((s.processes p).ctx) {
        sp_svc = s.cpu.sp - 36;
        sp_usr = s.cpu.sp_usr;
        lr_usr = s.cpu.lr_usr;
      };
    }
unfolding context_switch load save
saved_process s p q lo hi =
    let e : sub32 s.cpu.sp (9 * 4) ≡ s.cpu.sp - 36 = omega arith in
    subst
      (λ a.
        (if p == p
          then record (s.processes p) {
            ctx = record ((s.processes p).ctx) {
              sp_svc = a;
              sp_usr = s.cpu.sp_usr;
              lr_usr = s.cpu.lr_usr;
            };
          }
          else s.processes p)
        ≡ record (s.processes p) {
          ctx = record ((s.processes p).ctx) {
            sp_svc = s.cpu.sp - 36;
            sp_usr = s.cpu.sp_usr;
            lr_usr = s.cpu.lr_usr;
          };
        })
      (sym e) (ground arith)

saved_word :
    (s : Core) (p q i : ℕ)
    → length s.cpu.saved ≡ 8
    → 36 ≤ s.cpu.sp
    → s.cpu.sp < u32_mod
    → i < 9
    → (context_switch s (some p) q).memory (s.cpu.sp - 36 + i * 4)
      ≡ get_or (s.cpu.saved ++ s.cpu.lr ∷ []) i 0
unfolding context_switch load save
saved_word s p q i l lo hi h =
    let e : sub32 s.cpu.sp (9 * 4) ≡ s.cpu.sp - 36 = omega arith in
    let n = length-append s.cpu.saved (s.cpu.lr ∷ []) in
    subst
      (λ a.
        store_words s.memory a (s.cpu.saved ++ s.cpu.lr ∷ []) (s.cpu.sp - 36 + i * 4)
        ≡ get_or (s.cpu.saved ++ s.cpu.lr ∷ []) i 0)
      (sym e)
      (store_words_at s.memory (s.cpu.sp - 36) (s.cpu.saved ++ s.cpu.lr ∷ []) i (omega (arith, n))
        (omega (arith, n)))

-- A process that is switched away from and later switched to again finds everything as it was: r4 to
-- r11, the return address, the stack pointer and the user mode's banked registers, whatever the
-- processor and the other stacks hold by then, and it runs on its own page table. In between nothing
-- may have changed the nine words that it pushed nor its saved context, and the process that is
-- switched away from last pushes its registers on a stack elsewhere.
pub switch_back :
    (s t : Core) (prev : Option ℕ) (p q : ℕ)
    → length s.cpu.saved ≡ 8
    → length t.cpu.saved ≡ 8
    → 36 ≤ s.cpu.sp
    → s.cpu.sp < u32_mod
    → 36 ≤ t.cpu.sp
    → t.cpu.sp < u32_mod
    → t.processes p ≡ (context_switch s (some p) q).processes p
    → ((x : ℕ)
        → s.cpu.sp - 36 ≤ x
        → x < s.cpu.sp
        → t.memory x ≡ (context_switch s (some p) q).memory x)
    → prev ≢ some p
    → (s.cpu.sp ≤ t.cpu.sp - 36) ⊎ (t.cpu.sp ≤ s.cpu.sp - 36)
    → let back = (context_switch t prev p).cpu in
      (back.saved ≡ s.cpu.saved)
      × (back.lr ≡ s.cpu.lr)
      × (back.sp ≡ s.cpu.sp)
      × (back.sp_usr ≡ s.cpu.sp_usr)
      × (back.lr_usr ≡ s.cpu.lr_usr)
      × (back.ttbr0 ≡ bit_or (s.processes p).pgd_pa 0x4A)
unfolding context_switch load
switch_back s t prev p q ls lt lo hi lo' hi' ctx frame ne apart =
    let record_of = save_other t prev p ne ∙ ctx ∙ saved_process s p q lo hi in
    let a = s.cpu.sp - 36 in
    let at = ap (λ r. r.ctx.sp_svc) record_of in
    let word : (i : ℕ)
        → i < 9
        → (save t prev).memory (a + i * 4) ≡ get_or (s.cpu.saved ++ s.cpu.lr ∷ []) i 0 =
      λ i l.
        save_elsewhere t prev (a + i * 4) lt lo' hi'
          (elim apart [ inl h ↦ inl (omega arith) | inr h ↦ inr (omega arith) ])
        ∙ frame (a + i * 4) (omega arith) (omega arith)
        ∙ saved_word s p q i ls lo hi l in
    let popped =
      load_words_lem (save t prev).memory a s.cpu.saved (omega (arith, ls))
        (λ i l. word i (omega (arith, ls)) ∙ get_or-append_left s.cpu.saved (s.cpu.lr ∷ []) i l) in
    (
      ap (λ b. load_words (save t prev).memory b 8) at
          ∙ subst (λ n. load_words (save t prev).memory a n ≡ s.cpu.saved) ls popped,
      ap (λ b. (save t prev).memory (add32 b 32)) at
          ∙ ap (save t prev).memory (end_of a (omega arith))
          ∙ word 8 (omega arith)
          ∙ subst (λ n. get_or (s.cpu.saved ++ s.cpu.lr ∷ []) n 0 ≡ s.cpu.lr) ls
              (get_or-append_end s.cpu.saved s.cpu.lr),
      ap (λ b. add32 b 36) at ∙ omega arith,
      ap (λ r. r.ctx.sp_usr) record_of,
      ap (λ r. r.ctx.lr_usr) record_of,
      ap (λ r. bit_or r.pgd_pa 0x4A) record_of,
    )
  where
    end_of : (a : ℕ) → a + 36 < u32_mod → add32 a 32 ≡ a + 8 * 4
    end_of a h = omega arith
