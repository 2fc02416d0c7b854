-- ===== src/Boot/Reset/Zeroed.antt =====
-- The loop over the BSS in kernel/arch/arm/boot/start.S.
use refix_os.Common.{
  ℕ, Bool, ◌<◌, if◌then◌else◌, leb, ◌&&◌, ◌+◌, ltb, ◌*◌, ◌≡◌, u32_mod, ◌-◌, some, ◌%◌, suc, ◌==◌,
  arith, add32, true, ◌∙◌, zero,
}
use refix_os.Boot.Reset.{zero_bss}
use refix_os.Boot.{Words, store_word}

-- The words from r1 on.
abbrev pub in_words : ℕ → ℕ → ℕ → Bool
in_words r1 n a = leb r1 a && ltb a (r1 + 4 * n) && (a - r1) % 4 == 0

in_words_step :
    (m : Words) (r1 n a : ℕ)
    → (if in_words (r1 + 4) n a then 0 else store_word m r1 0 a)
      ≡ (if in_words r1 (suc n) a then 0 else m a)
in_words_step m r1 n a = ground arith

pub zero_bss_lem :
    (n fuel r1 : ℕ) (m : Words)
    → n < fuel
    → r1 + 4 * n < u32_mod
    → (out : Words) × (zero_bss fuel m r1 (r1 + 4 * n) ≡ some out)
      × ((a : ℕ) → out a ≡ (if in_words r1 n a then 0 else m a))
unfolding zero_bss
zero_bss_lem n zero r1 m h w = absurd (omega arith)
zero_bss_lem zero (suc fuel) r1 m h w = (m, ground arith, λ a. ground arith)
zero_bss_lem (suc n) (suc fuel) r1 m h w =
    let (out, e, f) =
      zero_bss_lem n fuel (r1 + 4) (store_word m r1 0) (omega arith) (omega arith) in
    let next : add32 r1 4 ≡ r1 + 4 = omega arith in
    let here : ltb r1 (r1 + 4 * suc n) ≡ true = ground arith in
    let end : r1 + 4 * suc n ≡ r1 + 4 + 4 * n = omega arith in
    (out, rw (here, next, end) e, λ a. f a ∙ in_words_step m r1 n a)
