-- ===== src/User/Shell/Editor.antt =====
-- The line editor against a list of characters.
use refix_os.Common.{
  lt→ltb, ℕ, zero, suc, ◌+◌, ◌-◌, ◌<◌, ◌≡◌, ◌∙◌, ap, refl, List, [], ◌∷◌, ◌++◌, ◌==◌, ◌||◌, ltb,
  if◌then◌else◌, length, set, take, length-set, length-take, Bool, Bool-cases, inl, inr, arith,
  if_both, ltb→lt,
}
use refix_os.User.Shell.{Shell, Answers, key, line_max, Effect}

-- The buffer has its 64 bytes, and the cursor leaves room for the terminator.
pub record IsValid (s : Shell) : Type 0 where
  pub storage : length s.line ≡ line_max
  pub room : s.n < line_max

-- What the user has typed since the last Enter.
abbrev pub text : Shell → List ℕ
text s = take s.n s.line

abbrev pub all_but_last : List ℕ → List ℕ
all_but_last [] = []
all_but_last (c ∷ []) = []
all_but_last (c ∷ d ∷ s) = c ∷ all_but_last (d ∷ s)

abbrev pub is_enter : ℕ → Bool
is_enter c = (c == 13) || (c == 10)

abbrev pub is_erase : ℕ → Bool
is_erase c = (c == 8) || (c == 127)

-- The editor without a buffer: Enter starts afresh, an erase key takes the last character away, and
-- any other key appends, up to 63 characters.
abbrev pub edit : List ℕ → ℕ → List ℕ
edit t c =
    if is_enter c
    then []
    else if is_erase c
    then all_but_last t
    else if ltb (length t + 1) line_max
    then t ++ c ∷ []
    else t

take-set : (xs : List ℕ) (n c : ℕ) → n < length xs → take (suc n) (set xs n c) ≡ take n xs ++ c ∷ []
take-set [] n c h = absurd (omega arith)
take-set (x ∷ xs) zero c h = refl
take-set (x ∷ xs) (suc n) c h = ap (λ t. x ∷ t) (take-set xs n c (omega arith))

take_shorter : (xs : List ℕ) (n : ℕ) → n < length xs → take n xs ≡ all_but_last (take (suc n) xs)
take_shorter [] n h = absurd (omega arith)
take_shorter (x ∷ []) zero h = refl
take_shorter (x ∷ []) (suc n) h = absurd (omega arith)
take_shorter (x ∷ y ∷ xs) zero h = refl
take_shorter (x ∷ y ∷ xs) (suc n) h = ap (λ t. x ∷ t) (take_shorter (y ∷ xs) n (omega arith))

pub length-text : (s : Shell) → IsValid s → length (text s) ≡ s.n
length-text s v = length-take s.n s.line ∙ omega (arith, v.storage, v.room)

pub key-IsValid : (a : Answers) (s : Shell) (c : ℕ) → IsValid s → IsValid (key a s c).0
unfolding key
key-IsValid a s c v = elim (Bool-cases (is_enter c)) [
  | inl e ↦ rw e (record { storage = length-set s.line s.n 0 ∙ v.storage; room = omega arith })
  | inr e ↦ rw e (elim (Bool-cases (is_erase c)) [
    | inl d ↦ rw d (
        if_both (λ (r : Shell × List Effect). IsValid r.0) (ltb 0 s.n) _ _
          (record { storage = v.storage; room = omega (arith, v.room) }) v)
    | inr d ↦ rw d (elim (Bool-cases (ltb (s.n + 1) line_max)) [
      | inl r ↦ rw r (record { storage = length-set s.line s.n c ∙ v.storage; room = ltb→lt _ _ r })
      | inr r ↦ rw r v
    ])
  ])
]

erased :
    (line : List ℕ) (n : ℕ) (es : List Effect)
    → n < length line
    → let s : Shell = record { line = line; n = n } in
      let p : Shell × List Effect = if ltb 0 n then (record s { n = n - 1 }, es) else (s, []) in
      text p.0 ≡ all_but_last (take n line)
erased line zero es h = refl
erased line (suc n) es h =
    rw (lt→ltb 0 (suc n) (omega arith), less_one) (take_shorter line n (omega arith))
  where
    less_one : suc n - 1 ≡ n
    less_one = omega arith

pub key_edits : (a : Answers) (s : Shell) (c : ℕ) → IsValid s → text (key a s c).0 ≡ edit (text s) c
unfolding key
key_edits a s c v = elim (Bool-cases (is_enter c)) [
  | inl e ↦ rw e
  | inr e ↦ rw e (elim (Bool-cases (is_erase c)) [
    | inl d ↦ rw d (erased s.line s.n _ (omega (arith, v.storage, v.room)))
    | inr d ↦
        rw (d, length-text s v)
          (elim (Bool-cases (ltb (s.n + 1) line_max)) [
            | inl r ↦ rw r (rw (plus_one s.n) (take-set s.line s.n c (omega arith)))
            | inr r ↦ rw r
          ])
  ])
]
  where
    plus_one : (n : ℕ) → n + 1 ≡ suc n
    plus_one n = omega arith

abbrev pub type_keys : Answers → Shell → List ℕ → Shell
type_keys a s [] = s
type_keys a s (c ∷ cs) = type_keys a (key a s c).0 cs

abbrev pub edits : List ℕ → List ℕ → List ℕ
edits t [] = t
edits t (c ∷ cs) = edits (edit t c) cs

-- Whatever is typed, the 64-byte buffer and its cursor stay within bounds, so that the terminator
-- that Enter writes fits too, and they hold what the editor without a buffer holds.
type_keys_refines :
    (a : Answers) (s : Shell) (cs : List ℕ)
    → IsValid s
    → IsValid (type_keys a s cs) × (text (type_keys a s cs) ≡ edits (text s) cs)
type_keys_refines a s [] v = (v, refl)
type_keys_refines a s (c ∷ cs) v =
    let (v', e) = type_keys_refines a (key a s c).0 cs (key-IsValid a s c v) in
    (v', e ∙ ap (λ t. edits t cs) (key_edits a s c v))
