-- ===== src/Machine/Delivery.antt =====
-- A key, from the interrupt to the buffer of the process that waits for it.
use refix_os.Uart.Ring.Refine
use refix_os.Uart.Ring.Queue
use refix_os.Machine.{
  Machine, resume, waiting, user, resume_from, resume_at, answer, settle, after_call, switching,
  interrupt_at, interrupted,
}
use refix_os.Uart.Ring.{Ring, uart_rx_push}
use refix_os.Sched.{schedule, Sched, state_of}
use refix_os.Common.{
  List, ◌≡◌, ℕ, false, ◌∷◌, none, [], arith, length, ◌<◌, ◌++◌, ◌+◌, some, ◌≤◌, sym, ◌≢◌,
  append-nil, take, ◌∙◌, ap, length-append, append_assoc, drop, refl, subst,
}
use refix_os.Irq.Drained.{push_all}
use refix_os.Uart.Ring.Refine.{push-IsValid, contents, push_refines}
use refix_os.Syscall.Dispatch.{ExceptionContext, reg, deliver, finished, with_r0}
use refix_os.Syscall.Read.Transfer.{copied, drain, read_loop_transfers, contents-drain}
use refix_os.Syscall.Read.{read_loop}
use refix_os.Exception.{schedule_tail, switched}
use refix_os.Kernel.Memory.{bytes_at, stored, bytes_at-stored}
use mathlib.Core.Path.{ap₂}
use refix_os.Kernel.{Kernel}
use refix_os.Irq.Bus.{Bus}
use refix_os.Irq.Core.{IntcOps, uart_rx_irq}
use refix_os.Mmu.{Board}
use refix_os.Machine.Well.{IsWell}
use refix_os.Irq.Preempt.{IsUart, key_wakes_eq, woken}
use refix_os.Irq.Handlers.{irq_uart0}
use refix_os.Proc.{blocked}

push_fits : (q : List ℕ) (c : ℕ) → length q < Queue.capacity → Queue.push q c ≡ q ++ c ∷ []
unfolding Queue.push
push_fits q c h = ground arith

-- The ring takes in what fits.
contents-push_all :
    (r : Ring) (bs : List ℕ)
    → Refine.IsValid r
    → length (contents r) + length bs ≤ Queue.capacity
    → contents (push_all r bs) ≡ contents r ++ bs
contents-push_all r [] v h = sym (append-nil (contents r))
contents-push_all r (c ∷ bs) v h =
    let e : contents (uart_rx_push r c) ≡ contents r ++ c ∷ [] =
      push_refines r c v ∙ push_fits (contents r) c (omega arith) in
    let l : length (contents (uart_rx_push r c)) ≡ length (contents r) + 1 =
      ap length e ∙ length-append (contents r) (c ∷ []) in
    contents-push_all (uart_rx_push r c) bs (push-IsValid r c v) (omega arith)
    ∙ ap (λ q. q ++ bs) e
    ∙ append_assoc (contents r) (c ∷ []) bs

push_all-IsValid : (r : Ring) (bs : List ℕ) → Refine.IsValid r → Refine.IsValid (push_all r bs)
push_all-IsValid r [] v = v
push_all-IsValid r (c ∷ bs) v = push_all-IsValid (uart_rx_push r c) bs (push-IsValid r c v)

schedule_rests : (s : Sched) → s.need_reschedule ≡ false → schedule s ≡ (s, none)
unfolding schedule
schedule_rests s e = ground arith

module _ {D : Type 0} where
  -- A process goes on in sys_read with bytes in the ring and no rescheduling due: it is back in user
  -- mode, with the bytes in its buffer.
  resume_reads :
      (fuel : ℕ) (m : Machine D) (p : ℕ) (ctx : ExceptionContext)
      → m.kernel.sched.current ≡ some p
      → m.kernel.sched.need_reschedule ≡ false
      → m.conts p ≡ waiting ctx
      → Refine.IsValid m.kernel.ring
      → contents m.kernel.ring ≢ []
      → reg ctx 2 < fuel
      → let got = take (reg ctx 2) (contents m.kernel.ring) in
        let k = copied m.kernel (reg ctx 1) (drain (length got) m.kernel.ring) got in
        (deliver ctx (read_loop fuel m.kernel (reg ctx 1) (reg ctx 2) 0)
          ≡ finished k (with_r0 ctx (length got)))
        × (resume fuel m ≡ record m { kernel = k; mode = user })
  unfolding resume
  resume_reads fuel m p ctx cur off waits v ne fu =
      let got = take (reg ctx 2) (contents m.kernel.ring) in
      let k = copied m.kernel (reg ctx 1) (drain (length got) m.kernel.ring) got in
      let e = read_loop_transfers fuel m.kernel p (reg ctx 1) (reg ctx 2) cur v ne fu in
      (
        ap (deliver ctx) e,
        ap (resume_from fuel m) cur
            ∙ ap (resume_at fuel m) waits
            ∙ ap (λ o. answer m ctx (deliver ctx o)) e
            ∙ ap (λ q. settle m (after_call (with_r0 ctx (length got))) (schedule_tail k q))
                (schedule_rests m.kernel.sched off),
      )

copied_memory :
    (k : Kernel) (p buf : ℕ) (r : Ring) (bs : List ℕ)
    → k.sched.current ≡ some p
    → (copied k buf r bs).mem p ≡ stored (k.mem p) buf bs
copied_memory k p buf r bs cur = rw cur (ground arith)

-- Machine m1 has switched to process p, which waits in sys_read with frame ctx. When it resumes, the
-- call ends with the first of the bytes bs in the buffer, as many as it asked for if there are so
-- many, and their number in r0, process p is in user mode, and the other bytes are in the ring.
pub record IsDelivered {D : Type 0} (fuel : ℕ) (ctx : ExceptionContext) (p : ℕ) (bs : List ℕ)
    (m1 : Machine D) : Type 0 where
  pub switches : m1.mode ≡ switching
  pub answers :
      deliver ctx (read_loop fuel m1.kernel (reg ctx 1) (reg ctx 2) 0)
      ≡ finished (resume fuel m1).kernel (with_r0 ctx (length (take (reg ctx 2) bs)))
  pub returns : (resume fuel m1).mode ≡ user
  pub runs : (resume fuel m1).kernel.sched.current ≡ some p
  pub buffer :
      bytes_at ((resume fuel m1).kernel.mem p) (reg ctx 1) (length (take (reg ctx 2) bs))
      ≡ take (reg ctx 2) bs
  pub left : contents (resume fuel m1).kernel.ring ≡ drop (reg ctx 2) bs

module _ {D : Type 0} where
  resumed-IsDelivered :
      (fuel : ℕ) (m : Machine D) (p : ℕ) (ctx : ExceptionContext) (bs : List ℕ)
      → m.mode ≡ switching
      → m.kernel.sched.current ≡ some p
      → m.kernel.sched.need_reschedule ≡ false
      → m.conts p ≡ waiting ctx
      → Refine.IsValid m.kernel.ring
      → contents m.kernel.ring ≡ bs
      → bs ≢ []
      → reg ctx 2 < fuel
      → IsDelivered fuel ctx p bs m
  resumed-IsDelivered fuel m p ctx bs mode cur off waits v e ne fu =
      let got = take (reg ctx 2) (contents m.kernel.ring) in
      let k = copied m.kernel (reg ctx 1) (drain (length got) m.kernel.ring) got in
      let (a, r) = resume_reads fuel m p ctx cur off waits v (λ q. ne (sym e ∙ q)) fu in
      let to : k ≡ (resume fuel m).kernel = ap (λ (x : Machine D). x.kernel) (sym r) in
      let q : take (reg ctx 2) (contents m.kernel.ring) ≡ take (reg ctx 2) bs =
        ap (take (reg ctx 2)) e in
      record {
        switches = mode;
        answers = a ∙ ap₂ (λ K n. finished K (with_r0 ctx n)) to (ap length q);
        returns = ap (λ (x : Machine D). x.mode) r;
        runs = ap (λ (x : Machine D). x.kernel.sched.current) r ∙ cur;
        buffer =
            subst (λ T. bytes_at ((resume fuel m).kernel.mem p) (reg ctx 1) (length T) ≡ T) q
              (ap (λ M. bytes_at M (reg ctx 1) (length got))
                  (ap (λ (x : Kernel). x.mem p) (sym to)
                    ∙ copied_memory m.kernel p (reg ctx 1) (drain (length got) m.kernel.ring) got
                        cur)
                ∙ bytes_at-stored (m.kernel.mem p) (reg ctx 1) got);
        left =
            ap (λ (x : Kernel). contents x.ring) (sym to)
            ∙ contents-drain (reg ctx 2) (contents m.kernel.ring) m.kernel.ring v refl
            ∙ ap (drop (reg ctx 2)) e;
      }

module _ {D : Type 0} (bus : Bus D) (ops : IntcOps D) (b : Board) where
  -- What is typed reaches the process that waits for it, on both boards: process c runs and p waits in
  -- sys_read for a call with frame ctx, with the ring empty. The controller reports the UART's line, and the chip holds at least one byte and no more than 127.
  -- Then the interrupt switches to p, and the two steps leave p in user mode with the oldest of the
  -- bytes in its buffer, as many as fit it, their number in r0, and the others in the ring. The fuel
  -- of the one is above the number of bytes, that of the other above the size of the buffer.
  pub typed-IsDelivered :
      (fuel fuel' : ℕ) (m : Machine D) (d0 d : D) (waits : D → List ℕ) (c p : ℕ)
      (ctx : ExceptionContext)
      → IsWell m
      → IsUart b bus waits
      → ops.get_active d0 ≡ (irq_uart0 b, d)
      → m.intc.irq_table (irq_uart0 b) ≡ some uart_rx_irq
      → m.kernel.sched.current ≡ some c
      → m.kernel.sched.blocked_reader ≡ some p
      → state_of m.kernel.sched p ≡ blocked
      → p ≢ c
      → m.conts p ≡ waiting ctx
      → contents m.kernel.ring ≡ []
      → waits d ≢ []
      → length (waits d) ≤ Queue.capacity
      → length (waits d) < fuel
      → reg ctx 2 < fuel'
      → IsDelivered fuel' ctx p (waits d) (interrupt_at bus ops b fuel d0 m)
  unfolding interrupt_at
  typed-IsDelivered fuel fuel' m d0 d waits c p ctx w chip a h cur slot asleep ne cont empty
        some_byte fit fu fu' =
      let i0 = record (m.intc) { device = d0 } in
      let (i', q) =
        key_wakes_eq bus fuel ops b i0 m.kernel d waits c p w.sound chip fu a h cur slot asleep
          ne in
      let m1 = interrupted m (some (i', switched (woken m.kernel (waits d) c p) (c, p))) in
      let ring : contents (push_all m.kernel.ring (waits d)) ≡ waits d =
        contents-push_all m.kernel.ring (waits d) w.sound.ring (omega (arith, ap length empty))
        ∙ ap (λ q. q ++ waits d) empty in
      subst (IsDelivered fuel' ctx p (waits d)) (sym (ap (interrupted m) q)) (
        resumed-IsDelivered fuel' m1 p ctx (waits d) refl refl refl (ground (arith, cont, ne))
          (push_all-IsValid m.kernel.ring (waits d) w.sound.ring) ring some_byte fu')
