-- ===== src/Irq/Filled.antt =====
-- What the receive interrupt leaves in the ring of kernel/drivers/uart/uart_core.c.
use refix_os.Common.{
  ℕ, List, [], ◌∷◌, ◌++◌, ◌≡◌, ◌≤◌, refl, ap, ◌∙◌, sym, arith, take, length, zero, suc, append-nil,
  append_assoc, Bool-cases, ltb, inl, inr,
}
use refix_os.Irq.Drained.{push_all}
use refix_os.Uart.Ring.{Ring, uart_rx_push}
use refix_os.Uart.Ring.Queue
use refix_os.Uart.Ring.Queue.{capacity}
use refix_os.Uart.Ring.Refine.{IsValid, contents, push_refines, push-IsValid, length-contents}

take_all : (n : ℕ) (q : List ℕ) → length q ≤ n → take n q ≡ q
take_all zero [] h = refl
take_all zero (c ∷ q) h = absurd (omega (arith, h))
take_all (suc n) [] h = refl
take_all (suc n) (c ∷ q) h = ap (λ r. c ∷ r) (take_all n q (omega (arith, h)))

take_full : (n : ℕ) (q xs : List ℕ) → n ≤ length q → take n (q ++ xs) ≡ take n q
take_full zero q xs h = refl
take_full (suc n) [] xs h = absurd (omega (arith, h))
take_full (suc n) (c ∷ q) xs h = ap (λ r. c ∷ r) (take_full n q xs (omega (arith, h)))

-- A byte for which there is no room is one that the queue's size cuts off.
take-push :
    (q cs : List ℕ) (c : ℕ)
    → length q ≤ capacity
    → take capacity (Queue.push q c ++ cs) ≡ take capacity (q ++ c ∷ cs)
unfolding Queue.push
take-push q cs c h = elim (Bool-cases (ltb (length q) capacity)) [
  | inl e ↦ rw e (ap (take capacity) (append_assoc q (c ∷ []) cs))
  | inr e ↦
      let full : capacity ≤ length q = ground (arith, e) in
      rw e (take_full capacity q cs full ∙ sym (take_full capacity q (c ∷ cs) full))
]

-- The ring takes the bytes in their order, as many as there is room for.
pub contents-push_all :
    (r : Ring) (bs : List ℕ)
    → IsValid r
    → contents (push_all r bs) ≡ take capacity (contents r ++ bs)
contents-push_all r [] v = sym (
    ap (take capacity) (append-nil (contents r))
    ∙ take_all capacity (contents r) (omega (arith, length-contents r, v.count_in)))
contents-push_all r (c ∷ cs) v =
    contents-push_all (uart_rx_push r c) cs (push-IsValid r c v)
    ∙ ap (λ q. take capacity (q ++ cs)) (push_refines r c v)
    ∙ take-push (contents r) cs c (omega (arith, length-contents r, v.count_in))
