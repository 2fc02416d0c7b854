-- ===== src/Irq/Transmit.antt =====
-- The text that the console prints reaches the transmitter.
use refix_os.Common.{
  ℕ, zero, suc, ◌+◌, ◌/◌, ◌%◌, ◌<◌, ◌≤◌, ◌≡◌, ◌∙◌, ap, refl, List, [], ◌∷◌, ◌++◌, Option, some, ◌⊎◌,
  inl, inr, ◌==◌, Bool, true, false, Bool-cases, arith, not, sym, append_assoc, none,
}
use mathlib.Core.List.{reverse, reverse-cons}
use refix_os.Irq.Bus.{Bus}
use refix_os.Irq.Output.{
  pl011_putc, ns16550_putc, put_all, console_puts, putc_of, and_then, console_putc,
}
use refix_os.Mmu.{Board, qemu, bbb}
use refix_os.Irq.Handlers.{uart0_base}
use refix_os.Uart.Format.Lines.{crlf}

-- The register that tells about the transmitter, and whether a value says that it is busy: a set bit 5
-- does on the PL011, a clear one on the NS16550.
abbrev pub flag_address : Board → ℕ
flag_address qemu = uart0_base qemu + 0x18
flag_address bbb = uart0_base bbb + 0x14

abbrev pub busy_flag : Board → Bool
busy_flag qemu = true
busy_flag bbb = false

-- A load of the flags in state d says that the transmitter has room.
abbrev pub SaysReady : {D : Type 0} → Board → Bus D → D → Type 0
SaysReady b bus d = ((bus.load d (flag_address b)).0 / 32 % 2 == 1) ≡ not (busy_flag b)

-- A transmitter that gets rid of its bytes: `wait` bounds how often a load of the flags can still say
-- busy, and `limit` bounds that at any time.
pub record HasRoom {D : Type 0} (b : Board) (bus : Bus D) (wait : D → ℕ) (limit : ℕ) : Type 0 where
  pub settles : (d : D) → SaysReady b bus d ⊎ (wait (bus.load d (flag_address b)).1 < wait d)
  pub bounded : (d : D) → wait d ≤ limit

-- A transmitter by its data sheet: `sent` is what it has accepted, the latest first. It accepts a byte
-- that is stored right behind a load of the flags that says that there is room; what becomes of any
-- other store is not said.
pub record IsTransmitter {D : Type 0} (b : Board) (bus : Bus D) (sent : D → List ℕ) (wait : D → ℕ)
    (limit : ℕ) : Type 0 where
  pub room : HasRoom b bus wait limit
  pub keeps : (d : D) → sent (bus.load d (flag_address b)).1 ≡ sent d
  pub sends :
      (d : D) (c : ℕ)
      → SaysReady b bus d
      → sent (bus.store (bus.load d (flag_address b)).1 (uart0_base b + 0) c)
        ≡ c ∷ sent (bus.load d (flag_address b)).1

-- What a call of putc amounts to: loads of the flags from d to e, one more that says that there is
-- room, and the store of the byte.
abbrev Puts : {D : Type 0} → Board → Bus D → D → ℕ → Option D → Type 0
Puts {D} b bus d c result =
    (e : D) × SaysReady b bus e
    × (result ≡ some (bus.store (bus.load e (flag_address b)).1 (uart0_base b + 0) c))
    × ((sent : D → List ℕ)
        → ((x : D) → sent (bus.load x (flag_address b)).1 ≡ sent x)
        → sent e ≡ sent d)

module _ {D : Type 0} (bus : Bus D) (wait : D → ℕ) (limit : ℕ) where
  pl011_putc-Puts :
      (fuel : ℕ) (d : D) (c : ℕ)
      → HasRoom qemu bus wait limit
      → wait d < fuel
      → Puts qemu bus d c (pl011_putc bus (uart0_base qemu) fuel d c)
  unfolding pl011_putc
  pl011_putc-Puts zero d c chip h = absurd (omega arith)
  pl011_putc-Puts (suc fuel) d c chip h =
      elim (Bool-cases ((bus.load d (flag_address qemu)).0 / 32 % 2 == 1)) [
        | inr e ↦ rw e (d, e, refl, λ sent keeps. refl)
        | inl e ↦ rw e (elim (chip.settles d) [
          | inl z ↦ absurd (ground (arith, e, z))
          | inr l ↦
              let (x, r, q, s) =
                pl011_putc-Puts fuel (bus.load d (flag_address qemu)).1 c chip (omega arith) in
              (x, r, q, λ sent keeps. s sent keeps ∙ keeps d)
        ])
      ]

  ns16550_putc-Puts :
      (fuel : ℕ) (d : D) (c : ℕ)
      → HasRoom bbb bus wait limit
      → wait d < fuel
      → Puts bbb bus d c (ns16550_putc bus (uart0_base bbb) fuel d c)
  unfolding ns16550_putc
  ns16550_putc-Puts zero d c chip h = absurd (omega arith)
  ns16550_putc-Puts (suc fuel) d c chip h =
      elim (Bool-cases ((bus.load d (flag_address bbb)).0 / 32 % 2 == 1)) [
        | inl e ↦ rw e (d, e, refl, λ sent keeps. refl)
        | inr e ↦ rw e (elim (chip.settles d) [
          | inl z ↦ absurd (ground (arith, e, z))
          | inr l ↦
              let (x, r, q, s) =
                ns16550_putc-Puts fuel (bus.load d (flag_address bbb)).1 c chip (omega arith) in
              (x, r, q, λ sent keeps. s sent keeps ∙ keeps d)
        ])
      ]

module _ {D : Type 0} (b : Board) (bus : Bus D) (wait : D → ℕ) (limit fuel : ℕ)
    (h : limit < fuel) where
  putc_of-Puts :
      (d : D) (c : ℕ) → HasRoom b bus wait limit → Puts b bus d c (putc_of b bus fuel d c)
  putc_of-Puts d c chip = by_board b chip
    where
      by_board : (b : Board) → HasRoom b bus wait limit → Puts b bus d c (putc_of b bus fuel d c)
      by_board qemu chip =
          pl011_putc-Puts bus wait limit fuel d c chip (omega (arith, h, chip.bounded d))
      by_board bbb chip =
          ns16550_putc-Puts bus wait limit fuel d c chip (omega (arith, h, chip.bounded d))

  pub put_all_ends :
      (bytes : List ℕ) (d : D)
      → HasRoom b bus wait limit
      → (d' : D) × (put_all (putc_of b bus fuel) d bytes ≡ some d')
  unfolding put_all
  put_all_ends [] d chip = (d, refl)
  put_all_ends (c ∷ cs) d chip =
      let (e, _, q, _) = putc_of-Puts d c chip in
      let d1 = bus.store (bus.load e (flag_address b)).1 (uart0_base b + 0) c in
      let (d2, r) = put_all_ends cs d1 chip in (d2, rw (q, put_all) r)

  put_all_sends :
      (sent : D → List ℕ) (bytes : List ℕ) (d : D)
      → IsTransmitter b bus sent wait limit
      → (d' : D) × (put_all (putc_of b bus fuel) d bytes ≡ some d')
        × (sent d' ≡ reverse bytes ++ sent d)
  unfolding put_all
  put_all_sends sent [] d chip = (d, refl, refl)
  put_all_sends sent (c ∷ cs) d chip =
      let (e, ready, q, same) = putc_of-Puts d c chip.room in
      let d1 = bus.store (bus.load e (flag_address b)).1 (uart0_base b + 0) c in
      let s = chip.sends e c ready ∙ ap (λ l. c ∷ l) (chip.keeps e ∙ same sent chip.keeps) in
      let (d2, r, u) = put_all_sends sent cs d1 chip in
      (
        d2,
        rw (q, put_all) r,
        u
            ∙ ap (λ l. reverse cs ++ l) s
            ∙ sym (
                ap (λ r. r ++ sent d) (reverse-cons c cs)
                ∙ append_assoc (reverse cs) (c ∷ []) (sent d)),
      )

and_then_assoc :
    {D : Type 0} (o : Option D) (f g : D → Option D)
    → and_then (and_then o f) g ≡ and_then o (λ d. and_then (f d) g)
and_then_assoc none f g = refl
and_then_assoc (some d) f g = refl

console_puts-crlf :
    {D : Type 0} (putc : D → ℕ → Option D) (text : List ℕ) (d : D)
    → console_puts putc d text ≡ put_all putc d (crlf text)
unfolding console_puts console_putc put_all crlf
console_puts-crlf putc [] d = refl
console_puts-crlf putc (c ∷ s) d = elim (Bool-cases (c == 10)) [
  | inl e ↦ rw e (
      and_then_assoc (putc d 13) (λ x. putc x c) (λ x. console_puts putc x s) ∙ (λ i.
        and_then (putc d 13)
          (λ x. and_then (putc x (ten e i)) (λ y. console_puts-crlf putc s y i))))
  | inr e ↦ rw e (λ i. and_then (putc d c) (λ x. console_puts-crlf putc s x i))
]
  where
    ten : (c == 10) ≡ true → c ≡ 10
    ten e = ground arith

-- On both boards, with fuel above the longest wait of the transmitter, the console takes any text to
-- it: the transmitter accepts each byte once, in their order, with a carriage return in front of each
-- line feed, and nothing else.
pub console_puts_sends :
    {D : Type 0} (b : Board) (bus : Bus D) (sent : D → List ℕ) (wait : D → ℕ) (limit fuel : ℕ)
    (text : List ℕ) (d : D)
    → IsTransmitter b bus sent wait limit
    → limit < fuel
    → (d' : D) × (console_puts (putc_of b bus fuel) d text ≡ some d')
      × (sent d' ≡ reverse (crlf text) ++ sent d)
console_puts_sends b bus sent wait limit fuel text d chip h =
    let (d', q, s) = put_all_sends b bus wait limit fuel h sent (crlf text) d chip in
    (d', console_puts-crlf (putc_of b bus fuel) text d ∙ q, s)
