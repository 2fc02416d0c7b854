-- ===== src/Boot/Memory.antt =====
-- `kmemset` and `kmemcpy` of kernel/proc/process.c, on memory by kernel address.
use refix_os.Common.{
  ℕ, zero, suc, ◌+◌, ◌-◌, ◌≡◌, ◌∙◌, List, [], ◌∷◌, ◌&&◌, ◌==◌, leb, ltb, if◌then◌else◌, get_or,
  length, arith, Bool-cases, inl, leb→le, inr,
}

abbrev pub Bytes : Type 0
Bytes = ℕ → ℕ

abbrev pub store_byte : Bytes → ℕ → ℕ → Bytes
store_byte m a v b = if b == a then v else m b

-- `d[i] = v`, for `left` bytes from `d` on.
unfoldable pub kmemset : Bytes → ℕ → ℕ → ℕ → Bytes
kmemset m d v zero = m
kmemset m d v (suc left) = kmemset (store_byte m d v) (d + 1) v left

-- `d[i] = s[i]`, with the source as the list of its bytes.
unfoldable pub kmemcpy : Bytes → ℕ → List ℕ → Bytes
kmemcpy m d [] = m
kmemcpy m d (c ∷ s) = kmemcpy (store_byte m d c) (d + 1) s

pub kmemset_lem :
    (m : Bytes) (d v n a : ℕ) → kmemset m d v n a ≡ (if leb d a && ltb a (d + n) then v else m a)
unfolding kmemset
kmemset_lem m d v zero a = ground arith
kmemset_lem m d v (suc n) a = kmemset_lem (store_byte m d v) (d + 1) v n a ∙ ground arith

copied_step :
    (m : Bytes) (d a c : ℕ) (s : List ℕ)
    → (if leb (d + 1) a && ltb a (d + 1 + length s)
        then get_or s (a - (d + 1)) 0
        else store_byte m d c a)
      ≡ (if leb d a && ltb a (d + suc (length s)) then get_or (c ∷ s) (a - d) 0 else m a)
copied_step m d a c s = elim (Bool-cases (leb (d + 1) a)) [
  | inl l ↦
      let e : a - d ≡ suc (a - (d + 1)) = omega (arith, leb→le (d + 1) a l) in rw e (ground arith)
  | inr l ↦ elim (Bool-cases (a == d)) [
    | inl h ↦ let e : a - d ≡ 0 = ground arith in rw e (ground arith)
    | inr h ↦ ground arith
  ]
]

pub kmemcpy_lem :
    (m : Bytes) (d : ℕ) (s : List ℕ) (a : ℕ)
    → kmemcpy m d s a ≡ (if leb d a && ltb a (d + length s) then get_or s (a - d) 0 else m a)
unfolding kmemcpy
kmemcpy_lem m d [] a = ground arith
kmemcpy_lem m d (c ∷ s) a = kmemcpy_lem (store_byte m d c) (d + 1) s a ∙ copied_step m d a c s
