-- ===== src/Syscall/Write.antt =====
-- sys_write.
use refix_os.Common.{
  ℕ, suc, ◌≡◌, if◌then◌else◌, not, append-nil, ◌+◌, zero, arith, ◌<◌, u32_mod, ◌∙◌, ap, ◌≤◌,
  append_assoc, ◌⊎◌, false, Bool-cases, inl, inr, ◌++◌,
}
use refix_os.Kernel.{Kernel, emit, user_mem}
use refix_os.Uart.Format.{uart_puts, uart_putc}
use refix_os.Syscall.Outcome.{Outcome, returned, e_fault}
use refix_os.Kernel.Memory.{bytes_at}
use refix_os.Syscall.Pointer.{valid_user_ptr, user_virt_base, user_region_size, valid_user_ptr_iff}
use refix_os.Uart.Format.Lines.{crlf, uart_puts-crlf}

-- `for (i = …; i < len; i++) uart_putc(buf[i])`, with the rounds that are left.
pub put_bytes : Kernel → ℕ → ℕ → Kernel
put_bytes k va zero = k
put_bytes k va (suc left) = put_bytes (emit k (uart_putc (user_mem k va))) (va + 1) left

unfoldable pub sys_write : Kernel → ℕ → ℕ → ℕ → Outcome
unfolding put_bytes
sys_write k fd buf_addr len =
    if not (valid_user_ptr buf_addr len)
    then returned k e_fault
    else returned (put_bytes k buf_addr len) len

pub put_bytes_lem :
    (k : Kernel) (va n : ℕ) → put_bytes k va n ≡ emit k (uart_puts (bytes_at (user_mem k) va n))
unfolding put_bytes uart_puts
put_bytes_lem k va zero = ground (arith, append-nil k.out)
put_bytes_lem k va (suc n) =
    put_bytes_lem (emit k (uart_putc (user_mem k va))) (va + 1) n
    ∙ ap (λ o. record k { out = o })
        (append_assoc k.out (uart_putc (user_mem k va))
          (uart_puts (bytes_at (user_mem k) (va + 1) n)))

-- For 32-bit arguments sys_write prints the `len` bytes at the buffer, with a carriage return in front
-- of each line feed, and returns `len`, if the buffer lies in the user window; otherwise it prints
-- nothing and returns E_FAULT. It changes nothing else.
pub sys_write_lem :
    (k : Kernel) (fd buf len : ℕ)
    → buf < u32_mod
    → len < u32_mod
    → ((user_virt_base ≤ buf)
        × (buf + len ≤ user_virt_base + user_region_size)
        × (sys_write k fd buf len
            ≡ returned (record k { out = k.out ++ crlf (bytes_at (user_mem k) buf len) }) len))
      ⊎ (((buf < user_virt_base) ⊎ (user_virt_base + user_region_size < buf + len))
          × (sys_write k fd buf len ≡ returned k e_fault))
unfolding sys_write
sys_write_lem k fd buf len hb hl = elim (Bool-cases (valid_user_ptr buf len)) [
  | inl e ↦
      let w = (valid_user_ptr_iff buf len hb hl).0 e in
      inl (w.0, w.1, rw e (ap (λ r. returned r len) (put_bytes_lem k buf len ∙ as_lines)))
  | inr e ↦ inr (outside e, rw e)
]
  where
    as_lines :
        emit k (uart_puts (bytes_at (user_mem k) buf len))
        ≡ record k { out = k.out ++ crlf (bytes_at (user_mem k) buf len) }
    as_lines =
        ap (λ text. record k { out = k.out ++ text })
          (uart_puts-crlf (bytes_at (user_mem k) buf len))

    outside :
        valid_user_ptr buf len ≡ false
        → (buf < user_virt_base) ⊎ (user_virt_base + user_region_size < buf + len)
    outside e = grind (arith, valid_user_ptr_iff buf len hb hl)
