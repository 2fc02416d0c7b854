-- ===== src/User/Ulib/Decimal.antt =====
-- Printing a number and reading it back.
use refix_os.Common.{
  ℕ, zero, suc, ◌+◌, ◌*◌, ◌/◌, ◌%◌, ◌^◌, ◌<◌, ◌≡◌, ◌∙◌, refl, List, [], ◌∷◌, some, Bool-cases, ltb,
  ltb→lt, ◌==◌, inl, inr, arith, ◌-◌,
}
use native.Mathlib.Nat.{pow-suc}
use refix_os.User.Ulib.{putu_digits, ulib_putu, atoi_loop, ulib_atoi}

digit_step :
    (v : ℕ) (buf : List ℕ)
    → 0 < v
    → v < 0x80000000
    → atoi_loop (v / 10) ((48 + v % 10) ∷ buf) ≡ atoi_loop v buf
unfolding atoi_loop
digit_step v buf p h =
    let e : v / 10 * 10 + (48 + v % 10 - 48) ≡ v = omega arith in rw e (ground arith)

digits_read :
    (room v : ℕ) (buf : List ℕ)
    → v < 10 ^ room
    → v < 0x80000000
    → (ds : List ℕ) × (putu_digits room v buf ≡ some ds) × (atoi_loop 0 ds ≡ atoi_loop v buf)
unfolding putu_digits
digits_read zero v buf h s = let e : v ≡ 0 = omega arith in rw e (buf, refl, refl)
digits_read (suc room) v buf h s = elim (Bool-cases (ltb 0 v)) [
  | inl p ↦ rw p (
      let (ds, e, r) =
        digits_read room (v / 10) ((48 + v % 10) ∷ buf) (omega (arith, pow-suc 10 room))
          (omega arith) in
      (ds, e, r ∙ digit_step v buf (ltb→lt 0 v p) s))
  | inr p ↦ let e : v ≡ 0 = ground arith in rw e (buf, refl, refl)
]

-- `ulib_atoi` reads back what `ulib_putu` prints, for every number that an `int` holds; the digits
-- fit the eleven bytes of the buffer.
pub atoi-putu :
    (v : ℕ) → v < 0x80000000 → (ds : List ℕ) × (ulib_putu v ≡ some ds) × (ulib_atoi ds ≡ some v)
unfolding ulib_putu ulib_atoi atoi_loop
atoi-putu v h = elim (Bool-cases (v == 0)) [
  | inl z ↦ let e : v ≡ 0 = ground arith in rw e (48 ∷ [], refl, refl)
  | inr p ↦ rw p (digits_read 11 v [] (ground arith) h)
]
