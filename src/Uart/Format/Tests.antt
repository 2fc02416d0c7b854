-- ===== src/Uart/Format/Tests.antt =====
-- Runs of `uart_printf` that can be followed in the source.
use refix_os.Uart.Format.{uart_printf, num, str, uart_print_hex, uart_print_dec}
use refix_os.Common.{codes, ◌≡◌, [], refl, ◌∷◌, none, some, ◌++◌, List, ℕ, ◌<◌, length, ◌≤◌, arith}
use refix_os.Uart.Format.Decimal.{value, AreDigits, uart_print_dec_reads}

printf_conversions :
    uart_printf
      (codes "%u %08x %s %x%%%d%c\n")
      (num 40 ∷ num 48879 ∷ str (some (codes "hi")) ∷ num 0 ∷ num 4294967295 ∷ num 33 ∷ [])
    ≡ some (codes "40 0000beef hi 0%-1!" ++ 13 ∷ 10 ∷ [])
unfolding uart_printf
printf_conversions = refl

printf_undefined : uart_printf (codes "%u") [] ≡ none
unfolding uart_printf
printf_undefined = refl

print_hex : uart_print_hex 48879 ≡ codes "0x0000BEEF"
unfolding uart_print_hex
print_hex = refl

uart_print_dec_reads_example :
    (s : List ℕ) × (uart_print_dec 4294967295 ≡ some s)
    × (value 0 s ≡ 4294967295)
    × AreDigits s
    × (0 < length s)
    × (length s ≤ 10)
uart_print_dec_reads_example = uart_print_dec_reads 4294967295 (omega arith)
