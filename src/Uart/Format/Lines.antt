-- ===== src/Uart/Format/Lines.antt =====
-- What uart_puts of kernel/drivers/uart/uart_core.c does to the lines of a text.
use refix_os.Common.{
  ℕ, List, [], ◌∷◌, ◌≡◌, refl, ap, Bool-cases, ◌==◌, inl, inr, if◌then◌else◌, arith, true,
}
use refix_os.Uart.Format.{uart_putc, uart_puts}

-- A text as a terminal wants it: a carriage return, 13, in front of each line feed, 10.
unfoldable pub crlf : List ℕ → List ℕ
crlf [] = []
crlf (c ∷ s) = let rest = crlf s in if c == 10 then 13 ∷ 10 ∷ rest else c ∷ rest

pub uart_puts-crlf : (s : List ℕ) → uart_puts s ≡ crlf s
unfolding uart_puts uart_putc crlf
uart_puts-crlf [] = refl
uart_puts-crlf (c ∷ s) = elim (Bool-cases (c == 10)) [
  | inl e ↦ rw (e, uart_puts-crlf s) (ap (λ x. 13 ∷ x ∷ crlf s) (ten e))
  | inr e ↦ rw (e, uart_puts-crlf s) refl
]
  where
    ten : (c == 10) ≡ true → c ≡ 10
    ten e = ground arith
