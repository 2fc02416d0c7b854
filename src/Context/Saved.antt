-- ===== src/Context/Saved.antt =====
-- What saving one process leaves alone.
use refix_os.Context.{save, Core, store_words}
use refix_os.Common.{
  Option, ℕ, ◌≢◌, length, some, ◌≡◌, arith, ◌≤◌, none, ◌<◌, refl, u32_mod, ◌-◌, ◌⊎◌, sub32, ◌*◌,
  length-append, ◌∷◌, [], subst, ◌++◌, sym, inl, inr,
}
use refix_os.Context.Frames.{store_words_below, store_words_above}

-- What the save side of another process leaves alone.
pub save_elsewhere :
    (t : Core) (prev : Option ℕ) (x : ℕ)
    → length t.cpu.saved ≡ 8
    → 36 ≤ t.cpu.sp
    → t.cpu.sp < u32_mod
    → (x < t.cpu.sp - 36) ⊎ (t.cpu.sp ≤ x)
    → (save t prev).memory x ≡ t.memory x
unfolding save
save_elsewhere t none x l lo hi h = refl
save_elsewhere t (some r) x l lo hi h =
    let e : sub32 t.cpu.sp (9 * 4) ≡ t.cpu.sp - 36 = omega arith in
    let n = length-append t.cpu.saved (t.cpu.lr ∷ []) in
    subst (λ a. store_words t.memory a (t.cpu.saved ++ t.cpu.lr ∷ []) x ≡ t.memory x) (sym e)
      (elim h [
        | inl below ↦
            store_words_below t.memory (t.cpu.sp - 36) (t.cpu.saved ++ t.cpu.lr ∷ []) x
              (omega (arith, n)) below
        | inr above ↦
            store_words_above t.memory (t.cpu.sp - 36) (t.cpu.saved ++ t.cpu.lr ∷ []) x
              (omega (arith, n)) (omega (arith, n))
      ])

pub save_other :
    (t : Core) (prev : Option ℕ) (p : ℕ) → prev ≢ some p → (save t prev).processes p ≡ t.processes p
unfolding save
save_other t none p h = refl
save_other t (some r) p h = ground (arith, h)
