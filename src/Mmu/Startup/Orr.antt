-- ===== src/Mmu/Startup/Orr.antt =====
-- `orr` with small constants: the low bits that it sets, and the high bits that it keeps.
use Prim.Native.Nat.{bit_or, bit_or-bitwise, digits, max}
use refix_os.Common.{ℕ, suc, ◌%◌, ◌<◌, ◌≤◌, ◌≡◌, arith, ◌^◌, zero, ◌/◌, refl, ◌∙◌, sym, ap}

abbrev shifted : ℕ → ℕ → ℕ
shifted zero x = x
shifted (suc k) x = shifted k (x / 2)

shifted-zero : (k : ℕ) → shifted k 0 ≡ 0
shifted-zero zero = refl
shifted-zero (suc k) = shifted-zero k

abbrev or_digits : ℕ → ℕ → ℕ → ℕ
or_digits n a b = digits (λ y. y) max n a b

or_nothing : (n a : ℕ) → a ≤ n → or_digits n a 0 ≡ a
or_nothing zero a h = omega arith
or_nothing (suc n) zero h = refl
or_nothing (suc n) (suc a) h = rw (or_nothing n (suc a / 2) (omega arith)) (omega arith)

shifted-or_digits :
    (k n a b : ℕ) → a ≤ n → shifted k b ≡ 0 → shifted k (or_digits n a b) ≡ shifted k a
shifted-or_digits zero n a b h z = rw z (or_nothing n a h)
shifted-or_digits (suc k) zero zero b h z = z ∙ sym (shifted-zero k)
shifted-or_digits (suc k) zero (suc a) b h z = absurd (omega arith)
shifted-or_digits (suc k) (suc n) zero b h z = z ∙ sym (shifted-zero k)
shifted-or_digits (suc k) (suc n) (suc a) b h z =
    ap (shifted k) (omega arith) ∙ shifted-or_digits k n (suc a / 2) (b / 2) (omega arith) z

-- A constant below 2 ^ 14 leaves the upper bits alone.
pub orr_keeps : (a b : ℕ) → b < 2 ^ 14 → bit_or a b / 2 ^ 14 ≡ a / 2 ^ 14
orr_keeps a b h =
    let e : shifted 14 (bit_or a b) ≡ shifted 14 a =
      simp bit_or-bitwise (shifted-or_digits 14 a a b (omega arith) (omega arith)) in
    omega (arith, e)

pub orr_low : (a b : ℕ) → bit_or a b % 2 ≡ max (a % 2) (b % 2)
orr_low zero b = simp bit_or-bitwise (omega arith)
orr_low (suc a) b = simp bit_or-bitwise (omega arith)
