-- ===== src/Syscall/Ps/Listing.antt =====
-- sys_ps writes a prefix of the full listing.
use refix_os.Common.{
  ℕ, List, ◌≡◌, ◌++◌, take, [], ◌∷◌, suc, arith, ◌-◌, ◌+◌, zero, length, true, ◌≤◌, ap, Bool-cases,
  refl, ◌<◌, ◌∙◌, inl, sym, false, inr, length-append, ◌⊎◌, append-nil, ltb, append_assoc, subst,
  if◌then◌else◌,
}
use refix_os.Proc.{Table, Process, num_processes}
use refix_os.Syscall.Ps.{
  put, Cursor, pid_char, name_or, state_name, write, copy_from, copy, put_line, put_lines, sys_ps,
  start,
}
use refix_os.Kernel.Memory.{stored, poke-stored}
use mathlib.Core.Path.{ap₂}
use refix_os.Kernel.{poke, Kernel, with_user_mem, user_mem}
use refix_os.Syscall.Pointer.{valid_user_ptr}
use refix_os.Syscall.Outcome.{returned, e_fault}

-- One line, and the whole listing, of processes i, i + 1, ….
abbrev pub line : Process → List ℕ
line p =
    (pid_char p.pid ∷ b' ' ∷ [])
    ++ (name_or p.name ++ ((b' ' ∷ []) ++ (state_name p.state ++ 10 ∷ [])))

abbrev pub listing : Table → ℕ → ℕ → List ℕ
listing t i zero = []
listing t i (suc n) = line (t i) ++ listing t (i + 1) n

take-nil : (k : ℕ) → take {A = ℕ} k [] ≡ []
take-nil zero = refl
take-nil (suc k) = refl

-- One byte more within a bound.
take_snoc_room :
    (k : ℕ) (s : List ℕ) (c : ℕ) → length (take k s) < k → take k (s ++ c ∷ []) ≡ take k s ++ c ∷ []
take_snoc_room zero s c h = absurd (omega arith)
take_snoc_room (suc k) [] c h = ap (λ r. c ∷ r) (take-nil k)
take_snoc_room (suc k) (x ∷ s) c h = ap (λ r. x ∷ r) (take_snoc_room k s c (omega arith))

take_snoc_full : (k : ℕ) (s t : List ℕ) → k ≤ length (take k s) → take k (s ++ t) ≡ take k s
take_snoc_full zero s t h = refl
take_snoc_full (suc k) [] t h = absurd (omega arith)
take_snoc_full (suc k) (x ∷ s) t h = ap (λ r. x ∷ r) (take_snoc_full k s t (omega arith))

module _ (m : ℕ → ℕ) (buf size : ℕ) where
  -- The cursor has written the first `size - 1` bytes of `text`, or all of it.
  record Wrote (f : Cursor) (text : List ℕ) : Type 0 where
    memory : f.memory ≡ stored m buf (take (size - 1) text)
    count : f.n ≡ length (take (size - 1) text)
    full : f.stopped ≡ true → size ≤ f.n + 1

  start-Wrote : Wrote (start m) []
  unfolding stored
  start-Wrote = record {
    memory = rw (take-nil (size - 1));
    count = rw (take-nil (size - 1));
    full = λ s. absurd (ground arith);
  }

  -- With the buffer full more text changes nothing.
  Wrote-full :
      (f g : Cursor) (text more : List ℕ)
      → Wrote f text
      → size ≤ f.n + 1
      → g.memory ≡ f.memory
      → g.n ≡ f.n
      → Wrote g (text ++ more)
  Wrote-full f g text more w h em en =
      let e = take_snoc_full (size - 1) text more (omega (arith, w.count)) in
      record {
        memory = em ∙ w.memory ∙ ap (stored m buf) (sym e);
        count = en ∙ w.count ∙ ap length (sym e);
        full = λ _. omega arith;
      }

  write-Wrote :
      (f : Cursor) (text : List ℕ) (c : ℕ)
      → Wrote f text
      → f.n + 1 < size
      → f.stopped ≡ false
      → Wrote (write buf f c) (text ++ c ∷ [])
  write-Wrote f text c w h live =
      let e = take_snoc_room (size - 1) text c (omega (arith, w.count)) in
      record {
        memory =
            ap₂ (λ g k. poke g (buf + k) c) w.memory w.count
            ∙ poke-stored m buf c (take (size - 1) text)
            ∙ ap (stored m buf) (sym e);
        count = omega (arith, w.count, ap length e, length-append (take (size - 1) text) (c ∷ []));
        full = λ s. absurd (ground arith);
      }

  put_cases :
      (f : Cursor) (c : ℕ)
      → ((f.stopped ≡ true) × (put buf size f c ≡ f))
        ⊎ (((f.stopped ≡ false)
              × (size ≤ f.n + 1)
              × (put buf size f c ≡ record f { stopped = true }))
            ⊎ ((f.stopped ≡ false) × (f.n + 1 < size) × (put buf size f c ≡ write buf f c)))
  unfolding put
  put_cases f c = ground arith

  put-Wrote :
      (f : Cursor) (text : List ℕ) (c : ℕ)
      → Wrote f text
      → Wrote (put buf size f c) (text ++ c ∷ [])
  put-Wrote f text c w = elim (put_cases f c) [
    | inl (s, e) ↦ rw e (Wrote-full f f text (c ∷ []) w (w.full s) refl refl)
    | inr (inl (s, h, e)) ↦ rw e (Wrote-full f _ text (c ∷ []) w h refl refl)
    | inr (inr (s, h, e)) ↦ rw e (write-Wrote f text c w h s)
  ]

  copy_from-Wrote :
      (f : Cursor) (text more : List ℕ)
      → f.stopped ≡ false
      → Wrote f text
      → Wrote (copy_from buf size f more) (text ++ more)
  unfolding copy_from
  copy_from-Wrote f text [] s w = rw (append-nil text) w
  copy_from-Wrote f text (c ∷ more) s w = elim (Bool-cases (ltb (f.n + 1) size)) [
    | inl e ↦
        rw (e, copy_from)
          (rw (← append_assoc text (c ∷ []) more) (
            copy_from-Wrote (write buf f c) (text ++ c ∷ []) more s
              (write-Wrote f text c w (ground arith) s)))
    | inr e ↦ rw (e, copy_from) (Wrote-full f f text (c ∷ more) w (ground arith) refl refl)
  ]

  copy_cases :
      (f : Cursor) (more : List ℕ)
      → ((f.stopped ≡ true) × (copy buf size f more ≡ f))
        ⊎ ((f.stopped ≡ false) × (copy buf size f more ≡ copy_from buf size f more))
  unfolding copy
  copy_cases f more = ground arith

  copy-Wrote :
      (f : Cursor) (text more : List ℕ) → Wrote f text → Wrote (copy buf size f more) (text ++ more)
  copy-Wrote f text more w = elim (copy_cases f more) [
    | inl (s, e) ↦ rw e (Wrote-full f f text more w (w.full s) refl refl)
    | inr (s, e) ↦ rw e (copy_from-Wrote f text more s w)
  ]

  put_line-Wrote :
      (f : Cursor) (text : List ℕ) (p : Process)
      → Wrote f text
      → Wrote (put_line buf size f p) (text ++ line p)
  unfolding put_line
  put_line-Wrote f text p w =
      let w1 = put-Wrote f text (pid_char p.pid) w in
      let w2 = put-Wrote _ _ b' ' w1 in
      let w3 = copy-Wrote _ _ (name_or p.name) w2 in
      let w4 = put-Wrote _ _ b' ' w3 in
      let w5 = copy-Wrote _ _ (state_name p.state) w4 in
      let w6 = put-Wrote _ _ 10 w5 in subst (Wrote (put_line buf size f p)) (simp append_assoc) w6

  put_lines-Wrote :
      (t : Table) (i left : ℕ) (f : Cursor) (text : List ℕ)
      → Wrote f text
      → Wrote (put_lines buf size t i left f) (text ++ listing t i left)
  unfolding put_lines
  put_lines-Wrote t i zero f text w = rw (append-nil text) w
  put_lines-Wrote t i (suc left) f text w =
      rw (← append_assoc text (line (t i)) (listing t (i + 1) left)) (
        put_lines-Wrote t (i + 1) left (put_line buf size f (t i)) (text ++ line (t i))
          (put_line-Wrote f text (t i) w))

-- sys_ps writes the listing of the three processes, cut off at `size - 1` bytes, from the start of
-- the buffer on, changes no other byte, and returns the number of bytes written, if the buffer passes
-- the pointer check; otherwise it returns E_FAULT and changes nothing.
pub sys_ps_lem :
    (k : Kernel) (buf size : ℕ)
    → let text = take (size - 1) (listing k.sched.processes 0 num_processes) in
      sys_ps k buf size ≡ (
        if valid_user_ptr buf size
        then returned (with_user_mem k (stored (user_mem k) buf text)) (length text)
        else returned k e_fault)
unfolding sys_ps
sys_ps_lem k buf size = elim (Bool-cases (valid_user_ptr buf size)) [
  | inl e ↦
      let w =
        put_lines-Wrote (user_mem k) buf size k.sched.processes 0 num_processes (start (user_mem k))
          [] (start-Wrote (user_mem k) buf size) in
      rw e (ap₂ (λ m n. returned (with_user_mem k m) n) w.memory w.count)
  | inr e ↦ rw e
]
