-- ===== src/Context/FirstEntry.antt =====
-- The first entry of a process, from the frame that process_build_initial_frame of
-- kernel/proc/process.c prepares.
use Prim.Native.Nat.{bit_or}
use refix_os.Context.Saved.{save_elsewhere, save_other}
use refix_os.Boot.{Words, process_build_initial_frame, zero_words, store_word}
use refix_os.Context.{
  Core, context_switch, load, save, store_words, ret_from_first_entry, load_words,
}
use refix_os.Common.{
  ℕ, ◌+◌, ◌≡◌, List, ◌<◌, length, suc, ◌++◌, [], add32, u32_mod, ◌*◌, ◌∷◌, ap, zero, refl, arith,
  ◌∙◌, replicate, sub32, sym, Option, ◌≤◌, ◌-◌, ◌⊎◌, get_or, ◌≢◌, some, inl, inr,
}
use refix_os.Proc.{Process}
use refix_os.Syscall.Pointer.{user_virt_base, user_region_size}
use refix_os.Context.Frames.{
  store_words_at, load_words_lem, get_or-append_left, get_or-append_right,
}

zero_words_lem : (m : Words) (a n : ℕ) → zero_words m a n ≡ store_words m a (replicate n 0)
unfolding zero_words store_words
zero_words_lem m a zero = refl
zero_words_lem m a (suc n) = zero_words_lem (store_word m a 0) (add32 a 4) n

store_words-append :
    (m : Words) (a : ℕ) (vs ws : List ℕ)
    → a + length vs * 4 < u32_mod
    → store_words m a (vs ++ ws) ≡ store_words (store_words m a vs) (a + length vs * 4) ws
unfolding store_words
store_words-append m a [] ws h = ap (λ b. store_words m b ws) (omega arith)
store_words-append m a (v ∷ vs) ws h =
    let e : add32 a 4 + length vs * 4 ≡ a + length (v ∷ vs) * 4 = omega arith in
    store_words-append (store_word m a v) (add32 a 4) vs ws (omega arith)
    ∙ ap (λ b. store_words (store_words (store_word m a v) (add32 a 4) vs) b ws) e

-- Two runs with a word between them, and what follows.
store_words-two_runs :
    (m : Words) (f : ℕ) (xs : List ℕ) (e : ℕ) (ys zs : List ℕ) (b c : ℕ)
    → f + length xs * 4 + 4 + length ys * 4 < u32_mod
    → f + length xs * 4 ≡ b
    → b + 4 ≡ c
    → store_words m f (xs ++ (e ∷ (ys ++ zs)))
      ≡ store_words (store_words (store_word (store_words m f xs) b e) c ys) (c + length ys * 4) zs
unfolding store_words
store_words-two_runs m f xs e ys zs b c h p q =
    let r : add32 b 4 ≡ c = omega arith in
    store_words-append m f xs (e ∷ (ys ++ zs)) (omega arith)
    ∙ ap (λ w. store_words (store_words m f xs) w (e ∷ (ys ++ zs))) p
    ∙ ap (λ w. store_words (store_word (store_words m f xs) b e) w (ys ++ zs)) r
    ∙ store_words-append (store_word (store_words m f xs) b e) c ys zs (omega arith)

-- The words of the frame, the lowest first.
abbrev pub frame_words : ℕ → ℕ → List ℕ
frame_words entry user_entry =
    replicate 8 0 ++ (entry ∷ (replicate 13 0 ++ (0 ∷ user_entry ∷ 0x10 ∷ [])))

three_words :
    (m : Words) (a b c d x y z : ℕ)
    → a ≡ b
    → add32 b 4 ≡ c
    → add32 c 4 ≡ d
    → store_words m a (x ∷ y ∷ z ∷ []) ≡ store_word (store_word (store_word m b x) c y) d z
unfolding store_words
three_words m a b c d x y z p q r =
    ap (λ w. store_words m w (x ∷ y ∷ z ∷ [])) p
    ∙ ap (λ w. store_words (store_word m b x) w (y ∷ z ∷ [])) q
    ∙ ap (λ w. store_words (store_word (store_word m b x) c y) w (z ∷ [])) r

abbrev frame_of : Process → ℕ
frame_of p = sub32 (add32 p.kstack_base p.kstack_size) (25 * 4)

built_words :
    (m : Words) (p : Process) (entry : ℕ)
    → frame_of p + 100 < u32_mod
    → store_words m (frame_of p) (frame_words entry p.user_entry)
      ≡ (process_build_initial_frame m p entry).1
unfolding process_build_initial_frame
built_words m p entry h =
    let f = frame_of p in
    let b = add32 f (8 * 4) in
    let c = add32 f (9 * 4) in
    let d = add32 f (22 * 4) in
    let zeroed : store_words (store_word (store_words m f (replicate 8 0)) b entry) c
          (replicate 13 0)
        ≡ zero_words (store_word (zero_words m f 8) b entry) c 13 =
      (λ i. store_words (store_word (sym (zero_words_lem m f 8) i) b entry) c (replicate 13 0))
      ∙ sym (zero_words_lem (store_word (zero_words m f 8) b entry) c 13) in
    store_words-two_runs m f (replicate 8 0) entry (replicate 13 0) (0 ∷ p.user_entry ∷ 0x10 ∷ []) b
      c (omega arith) (omega arith) (omega arith)
    ∙ three_words
        (store_words (store_word (store_words m f (replicate 8 0)) b entry) c (replicate 13 0))
        (c + 52) d (add32 f (23 * 4)) (add32 f (24 * 4)) 0 p.user_entry 0x10 (omega arith)
        (omega arith) (omega arith)
    ∙ (λ i.
        store_word (store_word (store_word (zeroed i) d 0) (add32 f (23 * 4)) p.user_entry)
          (add32 f (24 * 4)) 0x10)

-- A word of the frame after the switch to the process.
frame_word :
    (m : Words) (proc : Process) (entry : ℕ) (t : Core) (prev : Option ℕ) (f i : ℕ)
    → frame_of proc ≡ f
    → f + 100 < u32_mod
    → ((x : ℕ) → f ≤ x → x < f + 100 → t.memory x ≡ (process_build_initial_frame m proc entry).1 x)
    → length t.cpu.saved ≡ 8
    → 36 ≤ t.cpu.sp
    → t.cpu.sp < u32_mod
    → (f + 100 ≤ t.cpu.sp - 36) ⊎ (t.cpu.sp ≤ f)
    → i < 25
    → (save t prev).memory (f + i * 4) ≡ get_or (frame_words entry proc.user_entry) i 0
frame_word m proc entry t prev f i e h same l lo hi apart r =
    save_elsewhere t prev (f + i * 4) l lo hi
      (elim apart [ inl a ↦ inl (omega arith) | inr a ↦ inr (omega arith) ])
    ∙ same (f + i * 4) (omega arith) (omega arith)
    ∙ ap (λ w. w (f + i * 4)) (sym (built_words m proc entry (omega arith)))
    ∙ ap (λ a. store_words m a (frame_words entry proc.user_entry) (f + i * 4)) e
    ∙ store_words_at m f (frame_words entry proc.user_entry) i (omega arith) r

built_process :
    (m : Words) (p : Process) (entry : ℕ)
    → (process_build_initial_frame m p entry).0 ≡ record p {
      ctx = record (p.ctx) {
        sp_svc = frame_of p;
        lr_svc = 0;
        spsr = 0x10;
        sp_usr = user_virt_base + user_region_size;
        lr_usr = 0;
      };
    }
unfolding process_build_initial_frame
built_process m p entry = refl

-- A new process starts in user mode at its entry point. The switch to it goes on at the address of
-- ret_from_first_entry with its page table, and there r0 to r12 and LR are zero, the processor is in
-- user mode with interrupts on, SP is the end of the user window, and its kernel stack is empty.
-- Until then nothing may have changed the frame of 100 bytes that process_build_initial_frame has
-- left at the top of its kernel stack nor its entry in the table, and the process that is switched
-- away from, if there is one, pushes its registers on a stack elsewhere.
pub first_entry :
    (m : Words) (proc : Process) (entry : ℕ) (t : Core) (prev : Option ℕ) (p : ℕ)
    → 100 ≤ proc.kstack_base + proc.kstack_size
    → proc.kstack_base + proc.kstack_size < u32_mod
    → t.processes p ≡ (process_build_initial_frame m proc entry).0
    → ((x : ℕ)
        → proc.kstack_base + proc.kstack_size - 100 ≤ x
        → x < proc.kstack_base + proc.kstack_size
        → t.memory x ≡ (process_build_initial_frame m proc entry).1 x)
    → length t.cpu.saved ≡ 8
    → 36 ≤ t.cpu.sp
    → t.cpu.sp < u32_mod
    → (proc.kstack_base + proc.kstack_size ≤ t.cpu.sp - 36)
      ⊎ (t.cpu.sp ≤ proc.kstack_base + proc.kstack_size - 100)
    → prev ≢ some p
    → let s = context_switch t prev p in
      (s.cpu.lr ≡ entry)
      × (s.cpu.ttbr0 ≡ bit_or proc.pgd_pa 0x4A)
      × (ret_from_first_entry s ≡ (
        record {
          r = replicate 13 0;
          pc = proc.user_entry;
          cpsr = 0x10;
          sp = user_virt_base + user_region_size;
          lr = 0;
        },
        proc.kstack_base + proc.kstack_size,
      ))
unfolding context_switch load ret_from_first_entry
first_entry m proc entry t prev p lo hi ctx same l slo shi apart ne =
    let record_of = save_other t prev p ne ∙ ctx ∙ built_process m proc entry in
    let f = proc.kstack_base + proc.kstack_size - 100 in
    let e : frame_of proc ≡ f = omega arith in
    let at : ((save t prev).processes p).ctx.sp_svc ≡ f = ap (λ r. r.ctx.sp_svc) record_of ∙ e in
    let svc = ((save t prev).processes p).ctx.sp_svc in
    let start : add32 svc 36 ≡ f + 36 = ap (λ b. add32 b 36) at ∙ omega arith in
    let at_word : (i : ℕ)
        → i < 16
        → (save t prev).memory (add32 (add32 svc 36) (i * 4))
          ≡ (save t prev).memory (f + (9 + i) * 4) =
      λ i h.
        ap (λ b. (save t prev).memory (add32 b (i * 4))) start
        ∙ ap (save t prev).memory (omega arith) in
    let word : (i : ℕ)
        → i < 25
        → (save t prev).memory (f + i * 4) ≡ get_or (frame_words entry proc.user_entry) i 0 =
      λ i h.
        frame_word m proc entry t prev f i e (omega arith) (λ x a b. same x a (omega arith)) l slo
          shi (elim apart [ inl a ↦ inl (omega arith) | inr a ↦ inr (omega arith) ]) h in
    let zeroed : load_words (save t prev).memory (add32 svc 36) 13 ≡ replicate 13 0 =
      ap (λ b. load_words (save t prev).memory b 13) start
      ∙ load_words_lem (save t prev).memory (f + 36) (replicate 13 0) (omega arith) (λ i h.
        ap (save t prev).memory (nine_on f i)
        ∙ word (9 + i) (omega arith)
        ∙ get_or-append_right (replicate 8 0 ++ entry ∷ [])
            (replicate 13 0 ++ 0 ∷ proc.user_entry ∷ 0x10 ∷ []) i (9 + i) (omega arith)
        ∙ get_or-append_left (replicate 13 0) (0 ∷ proc.user_entry ∷ 0x10 ∷ []) i h) in
    let pc = at_word 14 (omega arith) ∙ word 23 (omega arith) in
    let cpsr = at_word 15 (omega arith) ∙ word 24 (omega arith) in
    let top : add32 (add32 svc 36) (16 * 4) ≡ proc.kstack_base + proc.kstack_size =
      ap (λ b. add32 b (16 * 4)) start ∙ omega arith in
    (
      ap (λ b. (save t prev).memory (add32 b 32)) at
          ∙ ap (save t prev).memory (omega arith)
          ∙ word 8 (omega arith),
      ap (λ r. bit_or r.pgd_pa 0x4A) record_of,
      (λ i. (
        record {
          r = zeroed i;
          pc = pc i;
          cpsr = cpsr i;
          sp = (record_of i).ctx.sp_usr;
          lr = (record_of i).ctx.lr_usr;
        },
        top i,
      )),
    )
  where
    nine_on : (f i : ℕ) → f + 36 + i * 4 ≡ f + (9 + i) * 4
    nine_on f i = omega arith
