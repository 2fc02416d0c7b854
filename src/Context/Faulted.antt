-- ===== src/Context/Faulted.antt =====
-- What the handler of a fault sees.
use refix_os.Context.{UserState}
use refix_os.Context.Entry.{svc_entry, context_at, lr_ahead, fault_entry, exception_entry_fault}
use refix_os.Context.Returned.{frame_of_user, context_at_lem, frame_at, svc_entry-Holds}
use refix_os.Exception.Faults.{Fault, data_abort, prefetch_abort, undefined, handle_fault}
use refix_os.Kernel.{Kernel}
use refix_os.Boot.{Words}
use refix_os.Common.{
  ℕ, length, ◌≡◌, ◌<◌, u32_mod, ◌+◌, ◌≤◌, sub32, ◌-◌, arith, add32, ap, subst, ◌∙◌,
}

fault_sees_at :
    (f : Fault) (k : Kernel) (m : Words) (a : ℕ) (u : UserState)
    → length u.r ≡ 13
    → u.pc < u32_mod
    → a + 60 < u32_mod
    → exception_entry_fault f k m (a + 60) u ≡ handle_fault f k (frame_of_user u)
unfolding exception_entry_fault fault_entry
fault_sees_at f k m a u l pc h =
    let w = record u { pc = sub32 (add32 u.pc (lr_ahead f)) (lr_ahead f) } in
    let m1 = (svc_entry m (a + 60) w).0 in
    let at : (svc_entry m (a + 60) w).1 ≡ a = frame_at m a w h in
    ap (λ q. handle_fault f k (context_at m1 q)) at
    ∙ ap (handle_fault f k) (context_at_lem m1 a (frame_of_user w) l h (svc_entry-Holds m a w l h))
    ∙ ap (λ q. handle_fault f k (record { spsr = u.cpsr; r = u.r; lr = q })) (taken_back f)
  where
    taken_back : (f : Fault) → sub32 (add32 u.pc (lr_ahead f)) (lr_ahead f) ≡ u.pc
    taken_back (data_abort dfsr dfar) = omega arith
    taken_back (prefetch_abort ifsr ifar) = omega arith
    taken_back undefined = omega arith

-- The handler of a fault sees the registers and the address of the instruction at fault.
exception_entry_fault_lem :
    (f : Fault) (k : Kernel) (m : Words) (sp : ℕ) (u : UserState)
    → length u.r ≡ 13
    → u.pc < u32_mod
    → 60 ≤ sp
    → sp < u32_mod
    → exception_entry_fault f k m sp u ≡ handle_fault f k (frame_of_user u)
exception_entry_fault_lem f k m sp u l pc lo hi =
    let q : sp - 60 + 60 ≡ sp = omega arith in
    subst (λ t. exception_entry_fault f k m t u ≡ handle_fault f k (frame_of_user u)) q
      (fault_sees_at f k m (sp - 60) u l pc (omega arith))
