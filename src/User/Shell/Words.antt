-- ===== src/User/Shell/Words.antt =====
-- The command parser against the words of a line.
use refix_os.User.Shell.{
  is_blank, match_word, skip_spaces, Effect, Answers, try_commands, cmd_echo, cmd_kill, puts,
  commands, dash, found_or, dispatch,
}
use refix_os.User.Ulib.{ulib_strlen, ulib_strncmp, ulib_puts, ulib_atoi, atoi_loop, head}
use refix_os.Common.{
  List, ℕ, ◌∷◌, All, Bool, ◌++◌, if◌then◌else◌, [], ◌≡◌, ◌<◌, true, false, some, ◌==◌, Bool-cases,
  ◌&&◌, inl, none, inr, refl, arith, ap, sub32, ◌∙◌, not, ◌*◌, codes, ◌+◌, ◌-◌,
}

-- A line up to its first blank, and from there on.
abbrev pub word : List ℕ → List ℕ
word [] = []
word (c ∷ s) = if is_blank c then [] else c ∷ word s

abbrev pub after_word : List ℕ → List ℕ
after_word [] = []
after_word (c ∷ s) = if is_blank c then c ∷ s else after_word s

abbrev pub same : List ℕ → List ℕ → Bool
same [] [] = true
same (c ∷ s) (d ∷ t) = (c == d) && same s t
same _ _ = false

-- A string up to its terminator.
abbrev pub c_string : List ℕ → List ℕ
c_string [] = []
c_string (c ∷ s) = if c == 0 then [] else c ∷ c_string s

-- The bytes of a string, without a zero among them.
abbrev pub IsText : List ℕ → Type 0
IsText = All (λ c. (0 < c) × (c < 256))

-- The name of a command has no blank and no control character in it.
abbrev IsName : List ℕ → Type 0
IsName = All (λ c. (32 < c) × (c < 256))

skip_spaces-append : (p g : List ℕ) → skip_spaces (p ++ 0 ∷ g) ≡ skip_spaces p ++ 0 ∷ g
unfolding skip_spaces
skip_spaces-append [] g = refl
skip_spaces-append (c ∷ p) g = elim (Bool-cases (is_blank c)) [
  | inl b ↦ rw b (skip_spaces-append p g)
  | inr b ↦ rw b
]

match_word-cons :
    (c : ℕ) (s : List ℕ) (d : ℕ) (w : List ℕ)
    → c < 256
    → 0 < d
    → d < 256
    → match_word (c ∷ s) (d ∷ w) ≡ (if c == d then match_word s w else none)
unfolding match_word ulib_strlen ulib_strncmp
match_word-cons c s d w small lo hi =
    let z : (d == 0) ≡ false = ground arith in
    rw z (elim (Bool-cases (c == d)) [
      | inl e ↦ let y : (c == 0) ≡ false = ground arith in rw (e, y) refl
      | inr e ↦
          let x : (sub32 c d == 0) ≡ false = ground arith in
          let q : (not (c == 0) && (c == d)) ≡ false = ground (arith, e) in rw q (rw x (rw e refl))
    ])

same-word :
    (c d : ℕ) (p g w : List ℕ)
    → is_blank d ≡ false
    → (if c == d
        then (if same (word p) w then some (skip_spaces (after_word p) ++ 0 ∷ g) else none)
        else none)
      ≡ (if same (word (c ∷ p)) (d ∷ w)
          then some (skip_spaces (after_word (c ∷ p)) ++ 0 ∷ g)
          else none)
same-word c d p g w n = elim (Bool-cases (is_blank c)) [
  | inl b ↦ let ne : (c == d) ≡ false = ground (arith, b, n) in rw (b, ne) refl
  | inr b ↦ rw b (elim (Bool-cases (c == d)) [ inl e ↦ rw e refl | inr e ↦ rw e refl ])
]

-- A line begins with a command name exactly if that is its first word, and the argument starts at
-- the next one.
match_word_lem :
    (p g w : List ℕ)
    → IsText p
    → IsName w
    → match_word (p ++ 0 ∷ g) w
      ≡ (if same (word p) w then some (skip_spaces (after_word p) ++ 0 ∷ g) else none)
match_word_lem [] g [] h k =
    unfold match_word ulib_strlen ulib_strncmp in ap some (skip_spaces-append [] g)
match_word_lem (c ∷ p) g [] h k =
    let z : (c == 0) ≡ false = ground arith in
    elim (Bool-cases (is_blank c)) [
      | inl b ↦ rw b (
          unfold match_word ulib_strlen ulib_strncmp in
          rw z (rw b (ap some (skip_spaces-append (c ∷ p) g))))
      | inr b ↦ rw b (unfold match_word ulib_strlen ulib_strncmp in rw z (rw b refl))
    ]
match_word_lem [] g (d ∷ w) h k =
    match_word-cons 0 g d w (omega arith) (omega (arith, k.0)) k.0.1 ∙ ground (arith, k)
match_word_lem (c ∷ p) g (d ∷ w) h k =
    match_word-cons c (p ++ 0 ∷ g) d w h.0.1 (omega (arith, k.0)) k.0.1
    ∙ rw (match_word_lem p g w h.1 k.1) (same-word c d p g w (ground (arith, k)))

abbrev pub unknown : List Effect
unknown = puts (codes "unknown command " ++ dash ++ codes " try 'help'\n") ∷ []

-- The entry of a table whose name the word is, run on the argument.
abbrev pub run_named : List (List ℕ × (List ℕ → List Effect)) → List ℕ → List ℕ → List Effect
run_named [] w arg = unknown
run_named ((name, run) ∷ cs) w arg = if same w name then run arg else run_named cs w arg

-- What a line does, by its first word and its argument, leading blanks aside.
abbrev pub run_words : Answers → List ℕ → List Effect
run_words a [] = []
run_words a (c ∷ s) = run_named (commands a) (word (c ∷ s)) (skip_spaces (after_word (c ∷ s)))

abbrev pub run_line : Answers → List ℕ → List Effect
run_line a p = run_words a (skip_spaces p)

-- Names without blanks, and commands that read their argument up to its terminator.
abbrev IsTable : List (List ℕ × (List ℕ → List Effect)) → Type 0
IsTable [] = Unit
IsTable ((name, run) ∷ cs) =
    IsName name × ((p g : List ℕ) → IsText p → run (p ++ 0 ∷ g) ≡ run p) × IsTable cs

try_commands_lem :
    (cs : List (List ℕ × (List ℕ → List Effect))) (p g : List ℕ)
    → IsTable cs
    → IsText p
    → IsText (skip_spaces (after_word p))
    → try_commands cs (p ++ 0 ∷ g) ≡ run_named cs (word p) (skip_spaces (after_word p))
unfolding try_commands
try_commands_lem [] p g t h k = refl
try_commands_lem ((name, run) ∷ cs) p g t h k =
    ap (λ o. found_or run o (try_commands cs (p ++ 0 ∷ g))) (match_word_lem p g name h t.0)
    ∙ elim (Bool-cases (same (word p) name)) [
      | inl e ↦ rw e (t.1 (skip_spaces (after_word p)) g k)
      | inr e ↦ rw e (try_commands_lem cs p g t.2 h k)
    ]

skip_spaces-IsText : (p : List ℕ) → IsText p → IsText (skip_spaces p)
unfolding skip_spaces
skip_spaces-IsText [] h = tt
skip_spaces-IsText (c ∷ p) h = elim (Bool-cases (is_blank c)) [
  | inl b ↦ rw b (skip_spaces-IsText p h.1)
  | inr b ↦ rw b h
]

after_word-IsText : (p : List ℕ) → IsText p → IsText (after_word p)
after_word-IsText [] h = tt
after_word-IsText (c ∷ p) h = elim (Bool-cases (is_blank c)) [
  | inl b ↦ rw b h
  | inr b ↦ rw b (after_word-IsText p h.1)
]

puts-c_string : (p g : List ℕ) → IsText p → ulib_puts (p ++ 0 ∷ g) ≡ ulib_puts p
unfolding ulib_puts ulib_strlen
puts-c_string [] g h = refl
puts-c_string (c ∷ p) g h =
    let z : (c == 0) ≡ false = ground (arith, h) in rw z (ap (λ s. c ∷ s) (puts-c_string p g h.1))

pub atoi-c_string : (v : ℕ) (p g : List ℕ) → atoi_loop v (p ++ 0 ∷ g) ≡ atoi_loop v p
unfolding atoi_loop
atoi-c_string v [] g = refl
atoi-c_string v (c ∷ p) g = rw (atoi-c_string (v * 10 + (c - 48)) p g) refl

head-c_string : (p g : List ℕ) → head (p ++ 0 ∷ g) ≡ head p
head-c_string [] g = refl
head-c_string (c ∷ p) g = refl

kill-c_string : (a : Answers) (p g : List ℕ) → cmd_kill a (p ++ 0 ∷ g) ≡ cmd_kill a p
unfolding cmd_kill ulib_atoi
kill-c_string a p g = rw (head-c_string p g, atoi-c_string 0 p g) refl

echo-c_string : (p g : List ℕ) → IsText p → cmd_echo (p ++ 0 ∷ g) ≡ cmd_echo p
unfolding cmd_echo
echo-c_string p g h = ap (λ t. Effect.write t ∷ Effect.write (10 ∷ []) ∷ []) (puts-c_string p g h)

commands-IsTable : (a : Answers) → IsTable (commands a)
commands-IsTable a = (
  omega arith,
  λ p g h. refl,
  (
    omega arith,
    λ p g h. refl,
    (
      omega arith,
      λ p g h. kill-c_string a p g,
      (omega arith, echo-c_string, (omega arith, λ p g h. refl, (omega arith, λ p g h. refl, tt))),
    ),
  ),
)

words_lem :
    (a : Answers) (q g : List ℕ)
    → IsText q
    → (if head (q ++ 0 ∷ g) == 0 then [] else try_commands (commands a) (q ++ 0 ∷ g))
      ≡ run_words a q
words_lem a [] g h = refl
words_lem a (c ∷ q) g h =
    let z : (c == 0) ≡ false = ground (arith, h) in
    rw z (
      try_commands_lem (commands a) (c ∷ q) g (commands-IsTable a) h
        (skip_spaces-IsText (after_word (c ∷ q)) (after_word-IsText (c ∷ q) h)))

-- A line in the buffer does what its words say.
pub dispatch_lem : (a : Answers) (p g : List ℕ) → IsText p → dispatch a (p ++ 0 ∷ g) ≡ run_line a p
unfolding dispatch
dispatch_lem a p g h =
    rw (skip_spaces-append p g) (words_lem a (skip_spaces p) g (skip_spaces-IsText p h))
