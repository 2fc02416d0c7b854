-- ===== src/Kernel/Memory.antt =====
-- Runs of bytes in a process's memory.
use refix_os.Common.{
  ℕ, [], List, suc, ◌∷◌, ◌≡◌, ◌<◌, ◌+◌, zero, ◌⊎◌, length, refl, ◌≤◌, ◌++◌, arith, if◌then◌else◌,
  ◌==◌,
}
use refix_os.Kernel.{poke}
use mathlib.Core.Path.{fun_ext}

-- The `n` bytes from address `a` on.
abbrev pub bytes_at : (ℕ → ℕ) → ℕ → ℕ → List ℕ
bytes_at m a zero = []
bytes_at m a (suc n) = m a ∷ bytes_at m (a + 1) n

-- The memory with `bs` written from address `a` on.
unfoldable pub stored : (ℕ → ℕ) → ℕ → List ℕ → ℕ → ℕ
stored m a [] x = m x
stored m a (b ∷ bs) x = if x == a then b else stored m (a + 1) bs x

-- Outside the bytes written nothing changes.
pub stored_outside :
    (m : ℕ → ℕ) (a : ℕ) (bs : List ℕ) (x : ℕ)
    → (x < a) ⊎ (a + length bs ≤ x)
    → stored m a bs x ≡ m x
unfolding stored
stored_outside m a [] x h = refl
stored_outside m a (b ∷ bs) x h = ground (arith, stored_outside m (a + 1) bs x)

poke_next :
    (m : ℕ → ℕ) (a b : ℕ) (bs : List ℕ) (x : ℕ)
    → poke (stored m a bs) (a + length bs) b x ≡ stored m a (bs ++ b ∷ []) x
unfolding stored
poke_next m a b [] x = ground arith
poke_next m a b (c ∷ bs) x = ground (arith, poke_next m (a + 1) b bs x)

-- A byte written just behind a run extends it.
pub poke-stored :
    (m : ℕ → ℕ) (a b : ℕ) (bs : List ℕ)
    → poke (stored m a bs) (a + length bs) b ≡ stored m a (bs ++ b ∷ [])
poke-stored m a b bs = fun_ext (poke_next m a b bs)

reads_back :
    (m f : ℕ → ℕ) (a : ℕ) (bs : List ℕ)
    → ((x : ℕ) → a ≤ x → f x ≡ stored m a bs x)
    → bytes_at f a (length bs) ≡ bs
unfolding stored
reads_back m f a [] h = refl
reads_back m f a (b ∷ bs) h =
    let first : f a ≡ b = ground (arith, h a) in
    let later = reads_back m f (a + 1) bs (λ x l. ground (arith, h x)) in λ i. first i ∷ later i

-- The bytes written read back.
pub bytes_at-stored :
    (m : ℕ → ℕ) (a : ℕ) (bs : List ℕ) → bytes_at (stored m a bs) a (length bs) ≡ bs
bytes_at-stored m a bs = reads_back m (stored m a bs) a bs (λ x l. refl)
