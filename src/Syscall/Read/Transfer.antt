-- ===== src/Syscall/Read/Transfer.antt =====
-- sys_read with bytes waiting.
use refix_os.Kernel.{Kernel, with_memory_at, with_user_mem, user_mem}
use refix_os.Kernel.Memory.{stored, poke-stored}
use refix_os.Common.{
  ℕ, ◌≡◌, some, suc, List, [], arith, zero, ◌+◌, length, ◌++◌, ◌∷◌, take, drop, ◌<◌, append-nil,
  ◌∙◌, length-append, ◌≢◌, ap, true, append_assoc, min, refl, sym, length-take,
}
use refix_os.Uart.Ring.Refine.{IsValid, pop-nil, count, length-contents}
use refix_os.Uart.Ring.{Ring, uart_rx_pop}
use refix_os.Syscall.Read.{take_byte, read_loop, sys_read}
use mathlib.Core.Path.{fun_ext, ap₂}
use refix_os.Uart.Ring.Refine.{contents, pop-IsValid, pop-cons}
use refix_os.Syscall.Outcome.{returned}
use refix_os.Syscall.Read.Rounds.{round_full, round_drained, round_byte, sys_read_enters}
use refix_os.Syscall.Pointer.{valid_user_ptr}

-- The ring after `m` reads.
pub drain : ℕ → Ring → Ring
drain zero r = r
drain (suc m) r = drain m (uart_rx_pop r).1

-- The kernel after `bs` has been copied to `buf`, with the ring `r` left.
abbrev pub copied : Kernel → ℕ → Ring → List ℕ → Kernel
copied k buf r bs = with_user_mem (record k { ring = r }) (stored (user_mem k) buf bs)

mem_step :
    (mem : ℕ → ℕ → ℕ) (c : ℕ) (m : ℕ → ℕ) (i : ℕ)
    → with_memory_at (with_memory_at mem (some c) m) (some c) m i ≡ with_memory_at mem (some c) m i
mem_step mem c m i = ground arith

copied_start : (k : Kernel) (buf c : ℕ) → k.sched.current ≡ some c → copied k buf k.ring [] ≡ k
unfolding stored
copied_start k buf c e = λ i. record k { mem = fun_ext same i }
  where
    same : (j : ℕ) → with_memory_at k.mem k.sched.current (user_mem k) j ≡ k.mem j
    same j = ground arith

-- One byte more.
copied_step :
    (k : Kernel) (buf c : ℕ) (r r' : Ring) (bs : List ℕ) (b : ℕ)
    → k.sched.current ≡ some c
    → take_byte (copied k buf r bs) r' (buf + length bs) b ≡ copied k buf r' (bs ++ b ∷ [])
copied_step k buf c r r' bs b e = λ i. record k { ring = r'; mem = fun_ext same i }
  where
    same :
        (j : ℕ)
        → (take_byte (copied k buf r bs) r' (buf + length bs) b).mem j
          ≡ (copied k buf r' (bs ++ b ∷ [])).mem j
    same j = ground (arith, poke-stored (user_mem k) buf b bs)

drain-IsValid : (m : ℕ) (r : Ring) → IsValid r → IsValid (drain m r)
unfolding drain
drain-IsValid zero r v = v
drain-IsValid (suc m) r v = drain-IsValid m (uart_rx_pop r).1 (pop-IsValid r v)

-- Reads take the oldest bytes off.
pub contents-drain :
    (n : ℕ) (q : List ℕ) (r : Ring)
    → IsValid r
    → contents r ≡ q
    → contents (drain (length (take n q)) r) ≡ drop n q
unfolding drain
contents-drain zero q r v e = e
contents-drain (suc n) [] r v e = e
contents-drain (suc n) (c ∷ q) r v e =
    contents-drain n q (uart_rx_pop r).1 (pop-IsValid r v) (pop-cons r c q v e).1

-- The loop from any point at which it can no longer fall asleep, with `room` bytes to go.
read_loop-copied :
    (k : Kernel) (c buf len room fuel : ℕ) (q : List ℕ) (r : Ring) (bs : List ℕ)
    → k.sched.current ≡ some c
    → IsValid r
    → contents r ≡ q
    → length bs + room ≡ len
    → room < fuel
    → 0 < length bs + length q
    → let got = take room q in
      read_loop fuel (copied k buf r bs) buf len (length bs)
      ≡ returned (copied k buf (drain (length got) r) (bs ++ got)) (length (bs ++ got))
unfolding drain
read_loop-copied k c buf len room zero q r bs cur v e le fu pos = absurd (omega arith)
read_loop-copied k c buf len zero (suc fuel) q r bs cur v e le fu pos =
    rw append-nil (round_full fuel (copied k buf r bs) buf len (length bs) (omega arith))
read_loop-copied k c buf len (suc room) (suc fuel) [] r bs cur v e le fu pos = rw append-nil (
    round_drained fuel (copied k buf r bs) buf len (length bs) (omega arith) (omega arith)
      (pop-nil r v e))
read_loop-copied k c buf len (suc room) (suc fuel) (b ∷ q) r bs cur v e le fu pos =
    let r' = (uart_rx_pop r).1 in
    let one : length bs + 1 ≡ length (bs ++ b ∷ []) = omega (arith, length-append bs (b ∷ [])) in
    round_byte fuel (copied k buf r bs) buf len (length bs) b (omega arith) (pop-cons r b q v e).0
    ∙ ap₂ (λ K n. read_loop fuel K buf len n) (copied_step k buf c r r' bs b cur) one
    ∙ read_loop-copied k c buf len room fuel q r' (bs ++ b ∷ []) cur (pop-IsValid r v)
        (pop-cons r b q v e).1 (omega arith) (omega arith) (omega arith)
    ∙ ap (λ xs. returned (copied k buf (drain (length (take room q)) r') xs) (length xs))
        (append_assoc bs (b ∷ []) (take room q))

length_pos : (q : List ℕ) → q ≢ [] → 0 < length q
length_pos [] h = absurd (h refl)
length_pos (b ∷ q) h = omega arith

-- The loop from its start, with bytes waiting.
pub read_loop_transfers :
    (fuel : ℕ) (k : Kernel) (c buf len : ℕ)
    → k.sched.current ≡ some c
    → IsValid k.ring
    → contents k.ring ≢ []
    → len < fuel
    → let got = take len (contents k.ring) in
      read_loop fuel k buf len 0
      ≡ returned (copied k buf (drain (length got) k.ring) got) (length got)
read_loop_transfers fuel k c buf len cur v ne fu =
    ap (λ K. read_loop fuel K buf len 0) (sym (copied_start k buf c cur))
    ∙ read_loop-copied k c buf len len fuel (contents k.ring) k.ring [] cur v refl (omega arith) fu
        (omega (arith, length_pos (contents k.ring) ne))

-- With `n` bytes waiting, 0 < n, and room for `len`, 0 < len, in a valid buffer, sys_read does not
-- block: it returns min len n, has written the oldest so many bytes to the buffer in order and
-- changed no other memory, and has taken exactly those off the ring. Fuel above `len` is enough.
pub sys_read_transfers :
    (fuel : ℕ) (k : Kernel) (c fd buf len : ℕ)
    → k.sched.current ≡ some c
    → IsValid k.ring
    → contents k.ring ≢ []
    → 0 < len
    → valid_user_ptr buf len ≡ true
    → len < fuel
    → let got = take len (contents k.ring) in
      (sys_read fuel k fd buf len
        ≡ returned (copied k buf (drain (length got) k.ring) got) (length got))
      × (contents (drain (length got) k.ring) ≡ drop len (contents k.ring))
      × (length got ≡ min len (count k.ring))
sys_read_transfers fuel k c fd buf len cur v ne pos ok fu = (
  sys_read_enters fuel k fd buf len pos ok ∙ read_loop_transfers fuel k c buf len cur v ne fu,
  contents-drain len (contents k.ring) k.ring v refl,
  length-take len (contents k.ring) ∙ ap (min len) (length-contents k.ring),
)
