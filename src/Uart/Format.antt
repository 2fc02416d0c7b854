-- ===== src/Uart/Format.antt =====
-- The output helpers of kernel/drivers/uart/uart_core.c (lines 57 to 182), as functions to the bytes
-- that reach the console's `putc`. `none` stands for undefined behaviour in C: an argument that is
-- missing or of another kind, a null string, a format that ends in `%`, a full digit buffer.
pub mod Decimal
pub mod Lines
mod Tests
use mathlib.Core.Option
use refix_os.Common.{
  Bool, ℕ, List, Option, suc, codes, some, length, none, if◌then◌else◌, [], ◌∷◌, leb, ◌/◌, ◌++◌,
  drop, ltb, ◌==◌, not, zero, ◌&&◌, ◌^◌, ◌%◌, ◌+◌, u32_mod, ◌-◌, ◌*◌, false, true,
}

-- `uart_putc`: a line feed is sent behind a carriage return.
unfoldable pub uart_putc : ℕ → List ℕ
uart_putc c = if c == 10 then 13 ∷ c ∷ [] else c ∷ []

unfoldable pub uart_puts : List ℕ → List ℕ
unfolding uart_putc
uart_puts [] = []
uart_puts (c ∷ s) = uart_putc c ++ uart_puts s

-- One hexadecimal digit of the tables `hex` (base 97, 'a') and `digits` (base 65, 'A').
pub hex_digit : ℕ → ℕ → ℕ
hex_digit base d = if ltb d 10 then 48 + d else base + (d - 10)

-- The digits at shifts 4 * (k - 1), …, 4, 0: `(val >> i) & 0xF` for i falling by 4.
pub hex_digits : ℕ → ℕ → ℕ → List ℕ
unfolding hex_digit
hex_digits base val zero = []
hex_digits base val (suc k) = hex_digit base (val / 2 ^ (4 * k) % 16) ∷ hex_digits base val k

-- The first loop of `%x`: how many digits are left once leading zeros are passed.
pub significant : ℕ → ℕ → ℕ
significant val zero = 1
significant val (suc k) =
    if not (val / 2 ^ (4 * suc k) % 16 == 0) then suc (suc k) else significant val k

unfoldable pub uart_print_hex : ℕ → List ℕ
unfolding hex_digits uart_puts
uart_print_hex val = uart_puts (codes "0x") ++ hex_digits b'A' val 8

-- `while (val > 0) { buf[i++] = '0' + val % 10; val /= 10; }`, with the room left in `buf`; the list
-- holds `buf` from its last entry down, the order in which the second loop prints it.
pub dec_digits : ℕ → ℕ → List ℕ → Option (List ℕ)
dec_digits zero val buf = if ltb 0 val then none else some buf
dec_digits (suc room) val buf = elim (ltb 0 val) [
  | true ↦ dec_digits room (val / 10) ((48 + val % 10) ∷ buf)
  | false ↦ some buf
]

unfoldable pub uart_print_dec : ℕ → Option (List ℕ)
unfolding dec_digits
uart_print_dec val = if val == 0 then some (b'0' ∷ []) else dec_digits 10 val []

-- An `int32_t` is its bit pattern; below zero `-(val + 1)` is `2 ^ 32 - val - 1`.
unfoldable pub uart_print_int : ℕ → Option (List ℕ)
unfolding uart_print_dec
uart_print_int val =
    if leb (2 ^ 31) val
    then Option.map (λ s. b'-' ∷ s) (uart_print_dec (u32_mod - val - 1 + 1))
    else uart_print_dec val

pub data Arg : Type 0 where
  num : ℕ → Arg
  str : Option (List ℕ) → Arg

-- What one round of the loop of `uart_printf` emits, and the format and arguments that are left.
abbrev pub Round : Type 0
Round = Option (List ℕ × List ℕ × List Arg)

abbrev pub with_num : (ℕ → Option (List ℕ)) → List ℕ → List Arg → Round
with_num f s (num v ∷ args) = Option.map (λ bs. (bs, s, args)) (f v)
with_num f s _ = none

abbrev pub with_str : List ℕ → List Arg → Round
with_str s (str (some t) ∷ args) = some (uart_puts t, s, args)
with_str s _ = none

pub is_08x : List ℕ → Bool
is_08x (a ∷ b ∷ c ∷ s) = a == b'0' && (b == b'8' && c == b'x')
is_08x _ = false

-- The `switch` on the letter behind the percent sign.
pub conversion : ℕ → List ℕ → List Arg → Round
conversion d s args =
    if d == b'c'
    then with_num (λ v. some (uart_putc (v % 256))) s args
    else if d == b's'
    then with_str s args
    else if d == b'd'
    then with_num uart_print_int s args
    else if d == b'u'
    then with_num uart_print_dec s args
    else if d == b'x'
    then with_num (λ v. some (hex_digits b'a' v (significant v 7))) s args
    else if d == b'p'
    then with_num (λ v. some (uart_puts (codes "0x") ++ hex_digits b'a' v 8)) s args
    else if d == b'%'
    then some (b'%' ∷ [], s, args)
    else some (b'%' ∷ uart_putc d, s, args)

pub directive : List ℕ → List Arg → Round
unfolding is_08x conversion
directive [] args = none
directive (d ∷ s) args =
    if is_08x (d ∷ s)
    then with_num (λ v. some (hex_digits b'a' v 8)) (drop 2 s) args
    else conversion d s args

pub round : ℕ → List ℕ → List Arg → Round
unfolding directive
round c s args = if c == b'%' then directive s args else some (uart_putc c, s, args)

-- The loop of `uart_printf`. Each round takes a character of the format at least, so its length is
-- fuel enough.
pub printf_loop : ℕ → List ℕ → List Arg → Option (List ℕ)
printf_loop fuel [] args = some []
printf_loop zero (c ∷ s) args = none
printf_loop (suc fuel) (c ∷ s) args = elim (round c s args) [
  | none ↦ none
  | some (bs, s', args') ↦ Option.map (λ rest. bs ++ rest) (printf_loop fuel s' args')
]

unfoldable pub uart_printf : List ℕ → List Arg → Option (List ℕ)
unfolding printf_loop round uart_putc uart_puts uart_print_int hex_digits significant
uart_printf fmt args = printf_loop (length fmt) fmt args
