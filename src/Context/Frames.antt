-- ===== src/Context/Frames.antt =====
-- Runs of words on a stack that does not wrap around.
use refix_os.Context.{store_words, load_words}
use refix_os.Common.{
  ℕ, ◌+◌, ◌*◌, ◌≤◌, List, length, u32_mod, ◌<◌, ◌≡◌, ◌∷◌, suc, ap, arith, add32, [], zero, refl,
  ◌∙◌, subst, sym, get_or, ◌++◌, Bool-cases, ltb, inl, ltb→lt, inr, ◌-◌,
}
use refix_os.Boot.{Words, store_word}

-- A run of `n` words at `a` lies below 2 ^ 32.
abbrev pub InRange : ℕ → ℕ → Type 0
InRange a n = a + n * 4 ≤ u32_mod

pub store_words_below :
    (m : Words) (a : ℕ) (vs : List ℕ) (x : ℕ)
    → InRange a (length vs)
    → x < a
    → store_words m a vs x ≡ m x
unfolding store_words
store_words_below m a [] x r h = refl
store_words_below m a (v ∷ []) x r h = ground arith
store_words_below m a (v ∷ w ∷ vs) x r h =
    let e : add32 a 4 ≡ a + 4 = omega arith in
    rw e (
      store_words_below (store_word m a v) (a + 4) (w ∷ vs) x (omega arith) (omega arith)
      ∙ ground arith)

pub store_words_above :
    (m : Words) (a : ℕ) (vs : List ℕ) (x : ℕ)
    → InRange a (length vs)
    → a + length vs * 4 ≤ x
    → store_words m a vs x ≡ m x
unfolding store_words
store_words_above m a [] x r h = refl
store_words_above m a (v ∷ []) x r h = ground arith
store_words_above m a (v ∷ w ∷ vs) x r h =
    let e : add32 a 4 ≡ a + 4 = omega arith in
    rw e (
      store_words_above (store_word m a v) (a + 4) (w ∷ vs) x (omega arith) (omega arith)
      ∙ ground arith)

-- Word i of what was pushed.
pub store_words_at :
    (m : Words) (a : ℕ) (vs : List ℕ) (i : ℕ)
    → InRange a (length vs)
    → i < length vs
    → store_words m a vs (a + i * 4) ≡ get_or vs i 0
unfolding store_words
store_words_at m a [] i r h = absurd (omega arith)
store_words_at m a (v ∷ []) zero r h = ground arith
store_words_at m a (v ∷ []) (suc i) r h = absurd (omega arith)
store_words_at m a (v ∷ w ∷ vs) zero r h =
    let e : add32 a 4 ≡ a + 4 = omega arith in
    let z : a + 0 * 4 ≡ a = omega arith in
    subst (λ b. store_words (store_word m a v) b (w ∷ vs) (a + 0 * 4) ≡ v) (sym e)
      (store_words_below (store_word m a v) (a + 4) (w ∷ vs) (a + 0 * 4) (omega arith) (omega arith)
        ∙ ground arith)
store_words_at m a (v ∷ w ∷ vs) (suc i) r h =
    let e : add32 a 4 ≡ a + 4 = omega arith in
    let z : a + 4 + i * 4 ≡ a + suc i * 4 = omega arith in
    subst (λ b. store_words (store_word m a v) b (w ∷ vs) (a + suc i * 4) ≡ get_or (w ∷ vs) i 0)
      (sym e)
      (ap (store_words (store_word m a v) (a + 4) (w ∷ vs)) (sym z)
        ∙ store_words_at (store_word m a v) (a + 4) (w ∷ vs) i (omega arith) (omega arith))

-- Popping gives the words one by one.
pub load_words_lem :
    (m : Words) (a : ℕ) (vs : List ℕ)
    → InRange a (length vs)
    → ((i : ℕ) → i < length vs → m (a + i * 4) ≡ get_or vs i 0)
    → load_words m a (length vs) ≡ vs
unfolding load_words
load_words_lem m a [] r h = refl
load_words_lem m a (v ∷ []) r h =
    let z : a + 0 * 4 ≡ a = omega arith in ap (λ w. w ∷ []) (ap m (sym z) ∙ h 0 (omega arith))
load_words_lem m a (v ∷ w ∷ vs) r h =
    let e : add32 a 4 ≡ a + 4 = omega arith in
    let z : a + 0 * 4 ≡ a = omega arith in
    let first : m a ≡ v = ap m (sym z) ∙ h 0 (omega arith) in
    let later =
      load_words_lem m (a + 4) (w ∷ vs) (omega arith)
        (λ i l. ap m (next_word a i) ∙ h (suc i) (omega arith)) in
    subst (λ b. (m a ∷ load_words m b (length (w ∷ vs))) ≡ v ∷ w ∷ vs) (sym e)
      (λ i. first i ∷ later i)
  where
    next_word : (a i : ℕ) → a + 4 + i * 4 ≡ a + suc i * 4
    next_word a i = omega arith

pub get_or-append_left :
    (vs ws : List ℕ) (i : ℕ) → i < length vs → get_or (vs ++ ws) i 0 ≡ get_or vs i 0
get_or-append_left [] ws i h = absurd (omega arith)
get_or-append_left (v ∷ vs) ws zero h = refl
get_or-append_left (v ∷ vs) ws (suc i) h = get_or-append_left vs ws i (omega arith)

pub get_or-append_right :
    (vs ws : List ℕ) (i j : ℕ) → j ≡ length vs + i → get_or (vs ++ ws) j 0 ≡ get_or ws i 0
get_or-append_right [] ws i j h = ap (λ n. get_or ws n 0) (omega arith)
get_or-append_right (v ∷ vs) ws i zero h = absurd (omega arith)
get_or-append_right (v ∷ vs) ws i (suc j) h = get_or-append_right vs ws i j (omega arith)

-- Two pushes, the second run below the first.
pub pushed_twice :
    (m : Words) (a b : ℕ) (ws vs : List ℕ) (i : ℕ)
    → b ≡ a + length ws * 4
    → InRange a (length ws + length vs)
    → i < length ws + length vs
    → store_words (store_words m b vs) a ws (a + i * 4) ≡ get_or (ws ++ vs) i 0
pushed_twice m a b ws vs i e r h = elim (Bool-cases (ltb i (length ws))) [
  | inl l ↦
      let below : i < length ws = ltb→lt i (length ws) l in
      store_words_at (store_words m b vs) a ws i (omega arith) below
      ∙ sym (get_or-append_left ws vs i below)
  | inr l ↦
      let above : length ws ≤ i = ground (arith, l) in
      store_words_above (store_words m b vs) a ws (a + i * 4) (omega arith) (omega arith)
      ∙ ap (store_words m b vs) (omega arith)
      ∙ store_words_at m b vs (i - length ws) (omega arith) (omega arith)
      ∙ sym (get_or-append_right ws vs (i - length ws) i (omega arith))
]
