-- ===== src/Uart/Format/Decimal.antt =====
-- Decimal output: `uart_print_dec` never overflows its buffer, and its digits read back.
use native.Mathlib.Nat.{pow-suc}
use refix_os.Common.{
  ℕ, List, ◌<◌, ◌∷◌, Option, ◌≡◌, ◌≤◌, some, [], ◌++◌, ◌*◌, ◌^◌, ◌/◌, ◌+◌, u32_mod, length, arith,
  ◌%◌, ◌-◌, suc, refl, append_assoc, Bool-cases, ltb, ◌∙◌, inl, ap, length-append, inr, zero, ◌==◌,
  ◌≢◌, append-nil,
}
use refix_os.Uart.Format.{dec_digits, uart_print_dec}

-- The number that decimal digits denote, read from the left behind `acc`.
abbrev pub value : ℕ → List ℕ → ℕ
value acc [] = acc
value acc (c ∷ s) = value (acc * 10 + (c - b'0')) s

abbrev pub AreDigits : List ℕ → Type 0
AreDigits [] = Unit
AreDigits (c ∷ s) = (b'0' ≤ c) × (c ≤ b'9') × AreDigits s

value-append : (acc : ℕ) (s t : List ℕ) → value acc (s ++ t) ≡ value (value acc s) t
value-append acc [] t = refl
value-append acc (c ∷ s) t = value-append (acc * 10 + (c - b'0')) s t

AreDigits-append : (s t : List ℕ) → AreDigits s → AreDigits t → AreDigits (s ++ t)
AreDigits-append [] t p q = q
AreDigits-append (c ∷ s) t p q = (p.0, p.1, AreDigits-append s t p.2 q)

-- The loop puts the digits of `val` in front of what the buffer holds.
record Printed (val : ℕ) (room : ℕ) (buf : List ℕ) (out : Option (List ℕ)) : Type 0 where
  digits : List ℕ
  result : out ≡ some (digits ++ buf)
  reads : value 0 digits ≡ val
  decimal : AreDigits digits
  short : length digits ≤ room

-- A digit below those of a tenth of the number.
one_more :
    {room val : ℕ} {buf : List ℕ} {out : Option (List ℕ)}
    → Printed (val / 10) room ((48 + val % 10) ∷ buf) out
    → Printed val (suc room) buf out
one_more {room} {val} {buf} p = record {
  digits = p.digits ++ (48 + val % 10) ∷ [];
  result = rw (append_assoc p.digits ((48 + val % 10) ∷ []) buf) p.result;
  reads =
      value-append 0 p.digits ((48 + val % 10) ∷ [])
      ∙ ap (λ v. v * 10 + (48 + val % 10 - 48)) p.reads
      ∙ omega arith;
  decimal = AreDigits-append p.digits _ p.decimal (omega arith);
  short = omega (arith, length-append p.digits ((48 + val % 10) ∷ []), p.short);
}

dec_digits-Printed :
    (room val : ℕ) (buf : List ℕ) → val < 10 ^ room → Printed val room buf (dec_digits room val buf)
unfolding dec_digits
dec_digits-Printed zero val buf h =
    let z : val ≡ 0 = omega arith in
    rw z (record { digits = []; result = refl; reads = refl; decimal = tt; short = omega arith })
dec_digits-Printed (suc room) val buf h = elim (Bool-cases (ltb 0 val)) [
  | inl more ↦
      rw (more, dec_digits)
        (one_more (
          dec_digits-Printed room (val / 10) ((48 + val % 10) ∷ buf)
            (omega (arith, pow-suc 10 room))))
  | inr done ↦
      rw (done, dec_digits)
        (record {
          digits = [];
          result = refl;
          reads = ground arith;
          decimal = tt;
          short = omega arith;
        })
]

length_pos : (s : List ℕ) → value 0 s ≢ 0 → 0 < length s
length_pos [] h = absurd (h refl)
length_pos (c ∷ s) h = omega arith

-- For every `uint32_t` the ten bytes of the buffer suffice: `uart_print_dec` prints one to ten
-- decimal digits, and they denote the value.
pub uart_print_dec_reads :
    (val : ℕ)
    → val < u32_mod
    → (s : List ℕ) × (uart_print_dec val ≡ some s)
      × (value 0 s ≡ val)
      × AreDigits s
      × (0 < length s)
      × (length s ≤ 10)
unfolding uart_print_dec
uart_print_dec_reads val h = elim (Bool-cases (val == 0)) [
  | inl z ↦ (b'0' ∷ [], rw z, ground arith, omega arith, omega arith, omega arith)
  | inr nz ↦
      let p = dec_digits-Printed 10 val [] (omega arith) in
      (
        p.digits,
        rw nz (p.result ∙ ap some (append-nil p.digits)),
        p.reads,
        p.decimal,
        length_pos p.digits (ground (arith, p.reads)),
        p.short,
      )
]
