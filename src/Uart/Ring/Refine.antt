-- ===== src/Uart/Ring/Refine.antt =====
-- The ring of uart_core.c implements the bounded queue of Uart/Ring/Queue.
use refix_os.Common.{
  ℕ, zero, suc, ◌+◌, ◌≤◌, ◌<◌, ◌≡◌, ◌≢◌, refl, ap, List, [], ◌∷◌, ◌++◌, Option, arith, ◌-◌, ◌↔◌,
  u32_mod, add32, sub32, length, get_or, set, length-set, get_or-set_self, get_or-set_ne, none,
  some, ◌∙◌,
}
use refix_os.Uart.Ring.Queue
use refix_os.Uart.Ring.Queue.{Event, arrive, read, capacity}
use refix_os.Uart.Ring.{Ring, mask, uart_rx_buf_size, ring_start, uart_rx_push, uart_rx_pop}

-- The number of bytes between the cursors, which may have wrapped.
abbrev pub count : Ring → ℕ
count r = sub32 r.rx_head r.rx_tail

pub record IsValid (r : Ring) : Type 0 where
  pub storage : length r.rx_buf ≡ uart_rx_buf_size
  pub head_in : r.rx_head < u32_mod
  pub tail_in : r.rx_tail < u32_mod
  pub count_in : count r ≤ capacity

-- The `n` bytes from cursor `t` on.
abbrev window : List ℕ → ℕ → ℕ → List ℕ
window buf t zero = []
window buf t (suc n) = get_or buf (mask t) 0 ∷ window buf (t + 1) n

abbrev pub contents : Ring → List ℕ
contents r = window r.rx_buf r.rx_tail (count r)

length-window : (buf : List ℕ) (t n : ℕ) → length (window buf t n) ≡ n
length-window buf t zero = refl
length-window buf t (suc n) = ap suc (length-window buf (t + 1) n)

pub length-contents : (r : Ring) → length (contents r) ≡ count r
length-contents r = length-window r.rx_buf r.rx_tail (count r)

-- Only the cursor's place in the buffer matters.
window_congr : (buf : List ℕ) (t u n : ℕ) → mask t ≡ mask u → window buf t n ≡ window buf u n
window_congr buf t u zero e = refl
window_congr buf t u (suc n) e =
    λ i. get_or buf (e i) 0 ∷ window_congr buf (t + 1) (u + 1) n (omega arith) i

-- A write just past a window that does not fill the buffer extends it by that byte.
window-set :
    (buf : List ℕ) (c t n h : ℕ)
    → length buf ≡ uart_rx_buf_size
    → n < capacity + 1
    → mask h ≡ mask (t + n)
    → window (set buf (mask h) c) t (suc n) ≡ window buf t n ++ c ∷ []
window-set buf c t zero h s k e =
    let e' : mask t ≡ mask h = omega arith in
    rw (e', get_or-set_self buf (mask h) c 0 (omega arith))
window-set buf c t (suc n) h s k e =
    let later = window-set buf c (t + 1) n h s (omega arith) (omega arith) in
    let kept = get_or-set_ne buf (mask h) (mask t) c 0 (omega arith) in λ i. kept i ∷ later i

-- The slot after the head is the tail's exactly when 127 bytes are held.
full_iff :
    (r : Ring) → IsValid r → (mask (add32 r.rx_head 1) ≡ mask r.rx_tail) ↔ (count r ≡ capacity)
full_iff r v = (λ e. omega arith, λ e. omega arith)

count_suc :
    (r : Ring)
    → IsValid r
    → count r ≢ capacity
    → sub32 (add32 r.rx_head 1) r.rx_tail ≡ suc (count r)
count_suc r v h = omega arith

pub push-IsValid : (r : Ring) (c : ℕ) → IsValid r → IsValid (uart_rx_push r c)
unfolding uart_rx_push
push-IsValid r c v = ground (arith, length-set r.rx_buf (mask r.rx_head) c, full_iff r v)

pub pop-IsValid : (r : Ring) → IsValid r → IsValid (uart_rx_pop r).1
unfolding uart_rx_pop
pop-IsValid r v = ground arith

-- A byte that arrives joins the end of the queue, or is dropped if 127 are waiting.
pub push_refines :
    (r : Ring) (c : ℕ) → IsValid r → contents (uart_rx_push r c) ≡ Queue.push (contents r) c
unfolding uart_rx_push Queue.push
push_refines r c v = ground (
  arith,
  count_suc r v,
  length-window r.rx_buf r.rx_tail (count r),
  window-set r.rx_buf c r.rx_tail (count r) r.rx_head v.storage,
)

window_of_ne_zero :
    (buf : List ℕ) (t n : ℕ)
    → n ≢ 0
    → window buf t n ≡ get_or buf (mask t) 0 ∷ window buf (t + 1) (n - 1)
window_of_ne_zero buf t zero h = absurd (h refl)
window_of_ne_zero buf t (suc n) h = ap (λ k. window buf t (suc k)) (omega arith)

pop_refines :
    (r : Ring)
    → IsValid r
    → let (c, r') = uart_rx_pop r in (c, contents r') ≡ Queue.pop (contents r)
unfolding uart_rx_pop Queue.pop
pop_refines r v = ground (
  arith,
  window_of_ne_zero r.rx_buf r.rx_tail (count r),
  window_congr r.rx_buf (r.rx_tail + 1) (add32 r.rx_tail 1) (count r - 1),
)

ring_start-IsValid : IsValid ring_start
unfolding ring_start
ring_start-IsValid = omega arith

-- No history of arrivals and reads tells the ring from the bounded queue.
unfoldable pub run : Ring → List Event → List (Option ℕ)
run r [] = []
run r (arrive c ∷ es) = run (uart_rx_push r c) es
run r (read ∷ es) = let (c, r') = uart_rx_pop r in c ∷ run r' es

pub run_refines : (r : Ring) (es : List Event) → IsValid r → run r es ≡ Queue.run (contents r) es
unfolding run Queue.run
run_refines r [] v = refl
run_refines r (arrive c ∷ es) v =
    rw (run_refines (uart_rx_push r c) es (push-IsValid r c v), push_refines r c v)
run_refines r (read ∷ es) v =
    rw (run_refines (uart_rx_pop r).1 es (pop-IsValid r v), ← pop_refines r v)

-- The two cases of a read, by what the ring holds.
pub pop-nil : (r : Ring) → IsValid r → contents r ≡ [] → (uart_rx_pop r).0 ≡ none
unfolding Queue.pop
pop-nil r v e = ap (λ t. t.0) (pop_refines r v) ∙ ap (λ q. (Queue.pop q).0) e

pub pop-cons :
    (r : Ring) (c : ℕ) (q : List ℕ)
    → IsValid r
    → contents r ≡ c ∷ q
    → ((uart_rx_pop r).0 ≡ some c) × (contents (uart_rx_pop r).1 ≡ q)
unfolding Queue.pop
pop-cons r c q v e = (
  ap (λ t. t.0) (pop_refines r v) ∙ ap (λ t. (Queue.pop t).0) e,
  ap (λ t. t.1) (pop_refines r v) ∙ ap (λ t. (Queue.pop t).1) e,
)
