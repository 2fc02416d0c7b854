-- ===== src/User/Shell/Session.antt =====
-- What the shell does for all that is typed, against an editor and a parser of lists.
use refix_os.User.Shell.{
  Shell, Answers, Effect, key, puts, prompt, rounds, line_max, greeting, shell_main, executed,
  dispatch,
}
use refix_os.User.Shell.Editor.{
  IsValid, text, edit, is_enter, is_erase, all_but_last, key_edits, key-IsValid, length-text,
}
use refix_os.User.Shell.Words.{run_line, c_string, IsText, dispatch_lem}
use refix_os.Common.{
  List, length, set, ℕ, ◌++◌, ◌∷◌, ◌<◌, All, if◌then◌else◌, ◌≡◌, Bool-cases, drop, take, [], ltb,
  ◌==◌, suc, ◌∙◌, inl, ◌+◌, ap, inr, arith, refl, zero, subst, if_both, sym,
}
use mathlib.Core.Path.{ap₂}

-- What a key does: Enter ends the line and runs it, an erase key takes back a character if there is
-- one, and any other key that finds room is echoed.
abbrev pub said : Answers → List ℕ → ℕ → List Effect
said a t c =
    if is_enter c
    then puts (13 ∷ 10 ∷ []) ∷ run_line a (c_string t) ++ prompt
    else if is_erase c
    then (if ltb 0 (length t) then puts (8 ∷ b' ' ∷ 8 ∷ []) ∷ [] else [])
    else if ltb (length t + 1) line_max
    then Effect.write (c ∷ []) ∷ []
    else []

abbrev pub session : Answers → List ℕ → List ℕ → List Effect
session a t [] = []
session a t (c ∷ cs) = said a t c ++ session a (edit t c) cs

abbrev pub IsBytes : List ℕ → Type 0
IsBytes = All (λ c. c < 256)

set_end : (xs : List ℕ) (n : ℕ) → n < length xs → set xs n 0 ≡ take n xs ++ 0 ∷ drop (suc n) xs
set_end [] n h = absurd (omega arith)
set_end (x ∷ xs) zero h = refl
set_end (x ∷ xs) (suc n) h = ap (λ t. x ∷ t) (set_end xs n (omega arith))

-- What follows the first zero of a buffer is not looked at.
up_to_zero : (t g : List ℕ) → (g' : List ℕ) × (t ++ 0 ∷ g ≡ c_string t ++ 0 ∷ g')
up_to_zero [] g = (g, refl)
up_to_zero (c ∷ t) g =
    let (g', e) = up_to_zero t g in
    elim (Bool-cases (c == 0)) [
      | inl z ↦
          let zero_here : c ≡ 0 = ground (arith, z) in
          rw (z) (t ++ 0 ∷ g, ap (λ x. x ∷ t ++ 0 ∷ g) zero_here)
      | inr z ↦ rw z (g', ap (λ s. c ∷ s) e)
    ]

c_string-IsText : (t : List ℕ) → IsBytes t → IsText (c_string t)
c_string-IsText [] h = tt
c_string-IsText (c ∷ t) h = elim (Bool-cases (c == 0)) [
  | inl z ↦ rw z tt
  | inr z ↦ rw z ((ground (arith, z), h.0), c_string-IsText t h.1)
]

entered :
    (a : Answers) (s : Shell)
    → IsValid s
    → IsBytes (text s)
    → dispatch a (set s.line s.n 0) ≡ run_line a (c_string (text s))
entered a s v h =
    let (g, e) = up_to_zero (text s) (drop (suc s.n) s.line) in
    ap (dispatch a) (set_end s.line s.n (omega (arith, v.storage, v.room)) ∙ e)
    ∙ dispatch_lem a (c_string (text s)) g (c_string-IsText (text s) h)

key_says :
    (a : Answers) (s : Shell) (c : ℕ)
    → IsValid s
    → IsBytes (text s)
    → (key a s c).1 ≡ said a (text s) c
unfolding key
key_says a s c v h = elim (Bool-cases (is_enter c)) [
  | inl e ↦ rw e (ap (λ es. puts (13 ∷ 10 ∷ []) ∷ es ++ prompt) (entered a s v h))
  | inr e ↦ rw e (
      rw (length-text s v) (elim (Bool-cases (is_erase c)) [
        | inl d ↦ rw d (elim (Bool-cases (ltb 0 s.n)) [ inl r ↦ rw r refl | inr r ↦ rw r refl ])
        | inr d ↦
            rw d
              (elim (Bool-cases (ltb (s.n + 1) line_max)) [ inl r ↦ rw r refl | inr r ↦ rw r refl ])
      ]))
]

all_but_last-IsBytes : (t : List ℕ) → IsBytes t → IsBytes (all_but_last t)
all_but_last-IsBytes [] h = tt
all_but_last-IsBytes (c ∷ []) h = tt
all_but_last-IsBytes (c ∷ d ∷ t) h = (h.0, all_but_last-IsBytes (d ∷ t) h.1)

append-IsBytes : (t : List ℕ) (c : ℕ) → IsBytes t → c < 256 → IsBytes (t ++ c ∷ [])
append-IsBytes [] c h k = (k, tt)
append-IsBytes (d ∷ t) c h k = (h.0, append-IsBytes t c h.1 k)

edit-IsBytes : (t : List ℕ) (c : ℕ) → IsBytes t → c < 256 → IsBytes (edit t c)
edit-IsBytes t c h k = if_both IsBytes (is_enter c) _ _ tt (
    if_both IsBytes (is_erase c) _ _ (all_but_last-IsBytes t h)
      (if_both IsBytes (ltb (length t + 1) line_max) _ _ (append-IsBytes t c h k) h))

rounds_lem :
    (a : Answers) (s : Shell) (cs : List ℕ)
    → IsValid s
    → IsBytes (text s)
    → IsBytes cs
    → rounds a s cs ≡ session a (text s) cs
unfolding rounds
rounds_lem a s [] v h k = refl
rounds_lem a s (c ∷ cs) v h k =
    let e = key_edits a s c v in
    let later =
      rounds_lem a (key a s c).0 cs (key-IsValid a s c v)
        (subst IsBytes (sym e) (edit-IsBytes (text s) c h k.0)) k.1 in
    ap₂ (◌++◌ {A = Effect}) (key_says a s c v h) (later ∙ ap (λ t. session a t cs) e)

-- The shell does for any input what the editor and the parser of lists do: each Enter runs the line
-- that the editor then holds, up to its first zero byte, by its first word and the rest behind the
-- blanks, whatever the stack held where the line buffer is; and nothing happens after the end of the
-- shell.
pub shell_main_refines :
    (a : Answers) (line cs : List ℕ)
    → length line ≡ line_max
    → IsBytes cs
    → shell_main a line cs ≡ executed a (greeting ∷ prompt ++ session a [] cs)
unfolding shell_main
shell_main_refines a line cs l h =
    ap (λ es. executed a (greeting ∷ prompt ++ es))
      (rounds_lem a (record { line = line; n = 0 }) cs (record { storage = l; room = omega arith })
        tt h)
