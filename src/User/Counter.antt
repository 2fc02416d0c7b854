-- ===== src/User/Counter.antt =====
-- user/apps/counter/counter.c and user/apps/runaway/runaway.c: the demonstration programs. A function
-- that prints is its bytes, and what sys_ticks and sys_getpid return is an argument.
use mathlib.Core.Option
use refix_os.Common.{
  ℕ, List, Option, none, ◌∷◌, ◌<◌, sub32, some, [], if◌then◌else◌, ◌++◌, u32_mod, add32, ◌≡◌, codes,
  leb, ltb, ◌*◌, ◌%◌, arith, Bool-cases, inl, inr, refl,
}
use refix_os.User.Ulib.{ulib_tag, ulib_puts, ulib_putu}

abbrev pub delay_ticks : ℕ
delay_ticks = 300

-- The loop of `delay_wall`. The list holds what its calls of sys_ticks return, each but the last of
-- them followed by a sys_yield, and then what later calls return. `none` says that the loop goes on
-- after them all.
unfoldable pub delay_loop : ℕ → ℕ → List ℕ → Option (List ℕ)
delay_loop start ticks [] = none
delay_loop start ticks (now ∷ later) =
    let rest = delay_loop start ticks later in
    if ltb (sub32 now start) ticks then rest else some later

unfoldable pub delay_wall : ℕ → List ℕ → Option (List ℕ)
delay_wall ticks [] = none
delay_wall ticks (start ∷ later) = delay_loop start ticks later

-- Outputs one after the other.
abbrev joined : List (Option (List ℕ)) → Option (List ℕ)
joined [] = some []
joined (none ∷ r) = none
joined (some s ∷ r) = Option.map (λ t. s ++ t) (joined r)

-- The variables `count` and `prev` of main.
pub record Counter : Type 0 where
  pub count : ℕ
  pub prev : ℕ

-- One round of the loop of main, up to its call of `delay_wall`.
unfoldable pub count_round : ℕ → ℕ → Counter → Option (List ℕ) × Counter
count_round pid now s =
    let dt = sub32 now s.prev in
    (
      joined (
          ulib_tag pid
          ∷ some (ulib_puts (codes "count="))
          ∷ ulib_putu s.count
          ∷ some (ulib_puts (codes "  dt="))
          ∷ ulib_putu (dt * 10 % u32_mod)
          ∷ some (ulib_puts (codes "ms\n"))
          ∷ []),
      record { count = add32 s.count 1; prev = now },
    )

-- What runaway prints before it loops for ever, with a dash of three bytes, U+2014.
unfoldable pub runaway_greeting : ℕ → Option (List ℕ)
runaway_greeting pid = joined (
    ulib_tag pid
    ∷ some
        (ulib_puts (codes "runaway started " ++ 226 ∷ 128 ∷ 148 ∷ codes " silent, no sys_yield\n"))
    ∷ [])

-- The readings of the wrapping tick counter, by the ticks that have passed since `start`.
abbrev pub readings : ℕ → List ℕ → List ℕ
readings start [] = []
readings start (e ∷ es) = add32 start e ∷ readings start es

-- Waiting by the ticks that have passed, with no counter that wraps.
unfoldable pub waited : ℕ → List ℕ → Option (List ℕ)
waited ticks [] = none
waited ticks (e ∷ es) = if leb ticks e then some es else waited ticks es

-- All are below 2 ^ 32.
abbrev pub Short : List ℕ → Type 0
Short [] = Unit
Short (e ∷ es) = (e < u32_mod) × Short es

elapsed : (start e : ℕ) → start < u32_mod → e < u32_mod → sub32 (add32 start e) start ≡ e
elapsed start e h l = omega arith

delay_loop-readings :
    (start ticks : ℕ) (es : List ℕ)
    → start < u32_mod
    → Short es
    → delay_loop start ticks (readings start es) ≡ Option.map (readings start) (waited ticks es)
unfolding delay_loop waited
delay_loop-readings start ticks [] h s = refl
delay_loop-readings start ticks (e ∷ es) h s =
    rw (elapsed start e h s.0) (elim (Bool-cases (ltb e ticks)) [
      | inl l ↦ rw l (ground (arith, l, delay_loop-readings start ticks es h s.1))
      | inr l ↦ rw l (ground (arith, l))
    ])

-- The delay goes by the ticks that have passed, also where the tick counter wraps around while it
-- lasts: it ends with the first reading at which the time since its start is no less than the given
-- one. The times are below 2 ^ 32 ticks.
delay_wall-readings :
    (start ticks : ℕ) (es : List ℕ)
    → start < u32_mod
    → Short es
    → delay_wall ticks (start ∷ readings start es) ≡ Option.map (readings start) (waited ticks es)
unfolding delay_wall
delay_wall-readings start ticks es h short = delay_loop-readings start ticks es h short
