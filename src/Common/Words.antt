-- ===== src/Common/Words.antt =====
-- `uint32_t` arithmetic: values are numbers below 2 ^ 32, and every operation that can wrap says so.
use Prim.Native.Nat.{ℕ, zero, suc, ◌+◌, ◌-◌, ◌/◌, ◌%◌, ◌^◌, ◌<◌}
use mathlib.Core.Path.{◌≡◌, refl, sym}
use mathlib.Core.Bool.{Bool, true, false, not, ◌&&◌}
use native.Mathlib.Omega.{arith}
use refix_os.Common.Tests.{◌==◌, Bool-cases}
use mathlib.Core.Logic.{inl, inr}

abbrev pub u32_mod : ℕ
u32_mod = 2 ^ 32

abbrev pub add32 : ℕ → ℕ → ℕ
add32 a b = (a + b) % u32_mod

-- `-` on ℕ stops at 0, so the modulus is added first.
abbrev pub sub32 : ℕ → ℕ → ℕ
sub32 a b = (a + u32_mod - b) % u32_mod

-- A bit of a word.
abbrev pub bit : ℕ → ℕ → Bool
bit v i = v / 2 ^ i % 2 == 1

abbrev same : Bool → Bool → Bool
same true b = b
same false b = not b

same-eq : (a b : Bool) → same a b ≡ true → a ≡ b
same-eq true b h = sym h
same-eq false true h = cc
same-eq false false h = refl

-- The lowest `n` bits of 2 ^ a are as they should be.
unfoldable row_agrees : ℕ → ℕ → Bool
row_agrees a zero = true
row_agrees a (suc b) = row_agrees a b && same (bit (2 ^ a) b) (b == a)

-- All 32 bits are, for each exponent below `n`.
unfoldable table_agrees : ℕ → Bool
table_agrees zero = true
table_agrees (suc a) = table_agrees a && row_agrees a 32

row_entry : (a b n : ℕ) → b < n → row_agrees a n ≡ true → same (bit (2 ^ a) b) (b == a) ≡ true
unfolding row_agrees
row_entry a b zero lt h = absurd (omega arith)
row_entry a b (suc n) lt h = elim (Bool-cases (b == n)) [
  | inl e ↦ ground (arith, h, e)
  | inr e ↦ row_entry a b n (ground (arith, e)) (ground (arith, h))
]

table_row : (a n : ℕ) → a < n → table_agrees n ≡ true → row_agrees a 32 ≡ true
unfolding table_agrees
table_row a zero lt h = absurd (omega arith)
table_row a (suc n) lt h = elim (Bool-cases (a == n)) [
  | inl e ↦ ground (arith, h, e)
  | inr e ↦ table_row a n (ground (arith, e)) (ground (arith, h))
]

whole_table : table_agrees 32 ≡ true
unfolding table_agrees row_agrees
whole_table = refl

-- A power of two has one bit.
pub bit-pow : (a b : ℕ) → a < 32 → b < 32 → bit (2 ^ a) b ≡ (b == a)
bit-pow a b ha hb = same-eq _ _ (row_entry a b 32 hb (table_row a 32 ha whole_table))
