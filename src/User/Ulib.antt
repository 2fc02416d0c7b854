-- ===== src/User/Ulib.antt =====
-- user/libc/ulib.c. A string is the list of its bytes; its end, like a zero byte in it, is the
-- terminator. A function that prints is its sequence of bytes to sys_write.
pub mod Decimal
use refix_os.Common.{
  ℕ, zero, suc, ◌+◌, ◌*◌, ◌/◌, ◌%◌, ◌-◌, List, [], ◌∷◌, ◌++◌, Option, some, none, Bool, true, false,
  not, ◌&&◌, ◌==◌, leb, ltb, if◌then◌else◌, get_or, drop, take, sub32, codes,
}

-- `*s`
abbrev pub head : List ℕ → ℕ
head s = get_or s 0 0

unfoldable pub ulib_strlen : List ℕ → ℕ
ulib_strlen [] = 0
ulib_strlen (c ∷ s) = let rest = ulib_strlen s in if c == 0 then 0 else suc rest

-- `ulib_puts`: the bytes of the one sys_write.
unfoldable pub ulib_puts : List ℕ → List ℕ
ulib_puts s = take (ulib_strlen s) s

-- One sys_write of one byte.
unfoldable pub ulib_putc : ℕ → List ℕ
ulib_putc c = c ∷ []

-- `while (v > 0) buf[i++] = …`, with the room left in `buf`; `none` is a write past its end. The
-- list holds `buf` from its last entry down, the order in which the second loop prints it.
unfoldable pub putu_digits : ℕ → ℕ → List ℕ → Option (List ℕ)
putu_digits zero v buf = if ltb 0 v then none else some buf
putu_digits (suc room) v buf =
    let rest = putu_digits room (v / 10) ((48 + v % 10) ∷ buf) in if ltb 0 v then rest else some buf

unfoldable pub ulib_putu : ℕ → Option (List ℕ)
ulib_putu v = if v == 0 then some (b'0' ∷ []) else putu_digits 11 v []

-- The result is an `int`, as its bit pattern.
unfoldable pub ulib_strcmp : List ℕ → List ℕ → ℕ
ulib_strcmp [] b = sub32 0 (head b)
ulib_strcmp (c ∷ a) b =
    let rest = ulib_strcmp a (drop 1 b) in
    if not (c == 0) && (c == head b) then rest else sub32 c (head b)

unfoldable pub ulib_strncmp : List ℕ → List ℕ → ℕ → ℕ
ulib_strncmp a b zero = 0
ulib_strncmp a b (suc n) =
    let rest = ulib_strncmp (drop 1 a) (drop 1 b) n in
    if not (head a == 0) && (head a == head b) then rest else sub32 (head a) (head b)

abbrev pub is_digit : ℕ → Bool
is_digit c = leb 48 c && leb c 57

-- The loop of `ulib_atoi`. `none` is signed overflow, which C leaves undefined.
unfoldable pub atoi_loop : ℕ → List ℕ → Option ℕ
atoi_loop v [] = some v
atoi_loop v (c ∷ s) =
    let v' = v * 10 + (c - 48) in
    let rest = atoi_loop v' s in
    if is_digit c then (if ltb v' 0x80000000 then rest else none) else some v

unfoldable pub ulib_atoi : List ℕ → Option ℕ
ulib_atoi s = atoi_loop 0 s

-- The argument is what sys_getpid returns.
unfoldable pub ulib_tag : ℕ → Option (List ℕ)
ulib_tag pid = elim (ulib_putu pid) [
  | none ↦ none
  | some digits ↦ some (ulib_puts (codes "[pid ") ++ digits ++ ulib_puts (codes "] "))
]
