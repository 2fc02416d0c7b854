-- ===== src/Boot/Icache/Fetched.antt =====
-- What the processor fetches after icache_sync.
use mathlib.Core.Option.{some-injective}
use refix_os.Common.{
  ℕ, ◌+◌, List, ◌/◌, ◌++◌, ◌%◌, arith, ◌≡◌, [], ◌<◌, ◌∷◌, true, length, ◌-◌, ◌≤◌, suc, u32_mod, ◌*◌,
  subst, Bool-cases, some, sym, add32, zero, get_or, ltb, refl, ◌∙◌, inl, inr,
}
use refix_os.Boot.Icache.{
  CacheOp, effect, happen, Caches, clean_lines, icache_sync, Event, fetch, evicts, finish_sync, dsb,
  does, refills, issued, prefetches, happens, dccmvau, iciallu, isb, same_line, read_or,
}
use refix_os.Boot.Memory.{kmemcpy, kmemcpy_lem}

-- The lines from a on.
abbrev pub lines : ℕ → ℕ → List CacheOp
lines a zero = []
lines a (suc n) = dccmvau a ∷ lines (a + 32) n

abbrev pub line_count : ℕ → ℕ → ℕ
line_count va len = (va + len + 31) / 32 - va / 32

clean_lines_lem :
    (n fuel a end : ℕ)
    → n < fuel
    → a + 32 * n < u32_mod
    → end ≤ a + 32 * n
    → a + 32 * n < end + 32
    → clean_lines fuel a end ≡ some (lines a n)
unfolding clean_lines
clean_lines_lem n zero a end h w l u = absurd (omega arith)
clean_lines_lem zero (suc fuel) a end h w l u = ground arith
clean_lines_lem (suc n) (suc fuel) a end h w l u =
    let rest =
      clean_lines_lem n fuel (a + 32) end (omega arith) (omega arith) (omega arith) (omega arith) in
    let wrap : add32 a 32 ≡ a + 32 = omega arith in
    let here : ltb a end ≡ true = ground arith in rw (here, wrap, rest) refl

icache_sync-lines :
    (fuel va len : ℕ)
    → len / 32 + 2 < fuel
    → va + len + 32 < u32_mod
    → icache_sync fuel va len ≡ some (lines (va / 32 * 32) (line_count va len) ++ finish_sync)
unfolding icache_sync
icache_sync-lines fuel va len h w =
    let end : add32 va len ≡ va + len = omega arith in
    let ls =
      clean_lines_lem (line_count va len) fuel (va / 32 * 32) (va + len) (omega arith) (omega arith)
        (omega arith) (omega arith) in
    rw (end, ls) refl

head_eq : (o o' : CacheOp) (os os' : List CacheOp) → o ∷ os ≡ o' ∷ os' → o ≡ o'
head_eq o o' os os' e = ground (arith, e)

tail_eq : (o o' : CacheOp) (os os' : List CacheOp) → o ∷ os ≡ o' ∷ os' → os ≡ os'
tail_eq o o' os os' e = ground (arith, e)

-- What the caches do by themselves keeps a property.
record IsStable (P : Caches → Type 0) : Type 0 where
  evicted : (c : Caches) (a : ℕ) → P c → P (happen (evicts a) c)
  refilled : (c : Caches) (a : ℕ) → P c → P (happen (refills a) c)
  prefetched : (c : Caches) (a : ℕ) → P c → P (happen (prefetches a) c)

-- Whatever the caches do between these instructions, P before them leads to G behind them.
abbrev Leads : (Caches → Type 0) → List CacheOp → (Caches → Type 0) → Type 0
Leads P os G = (es : List Event) (c : Caches) → issued es ≡ os → P c → G (happens c es)

step-Leads :
    (P Q G : Caches → Type 0) (o : CacheOp) (os : List CacheOp)
    → IsStable P
    → ((c : Caches) → P c → Q (effect o c))
    → Leads Q os G
    → Leads P (o ∷ os) G
unfolding happen
step-Leads P Q G o os st step rest [] c e p = absurd (ground (arith, e))
step-Leads P Q G o os st step rest (does o' ∷ es) c e p =
    rest es (effect o' c) (tail_eq o' o (issued es) os e)
      (subst (λ q. Q (effect q c)) (sym (head_eq o' o (issued es) os e)) (step c p))
step-Leads P Q G o os st step rest (evicts a ∷ es) c e p =
    step-Leads P Q G o os st step rest es (happen (evicts a) c) e (st.evicted c a p)
step-Leads P Q G o os st step rest (refills a ∷ es) c e p =
    step-Leads P Q G o os st step rest es (happen (refills a) c) e (st.refilled c a p)
step-Leads P Q G o os st step rest (prefetches a ∷ es) c e p =
    step-Leads P Q G o os st step rest es (happen (prefetches a) c) e (st.prefetched c a p)

end-Leads : (P : Caches → Type 0) → IsStable P → Leads P [] P
unfolding happen
end-Leads P st [] c e p = p
end-Leads P st (does o' ∷ es) c e p = absurd (ground (arith, e))
end-Leads P st (evicts a ∷ es) c e p = end-Leads P st es (happen (evicts a) c) e (st.evicted c a p)
end-Leads P st (refills a ∷ es) c e p =
    end-Leads P st es (happen (refills a) c) e (st.refilled c a p)
end-Leads P st (prefetches a ∷ es) c e p =
    end-Leads P st es (happen (prefetches a) c) e (st.prefetched c a p)

module _ (x d : ℕ) where
  -- The states on the way: the byte at x is d on the data side; a clean of its line is under way; it
  -- is d behind the caches; the instruction cache is being emptied; holds nothing else; and nothing
  -- else is fetched ahead.
  abbrev Written : Caches → Type 0
  Written c = c.data_side x ≡ d

  abbrev Cleaning : Caches → Type 0
  Cleaning c = Written c × (c.cleaning x ≡ true)

  abbrev Clean : Caches → Type 0
  Clean c = Written c × (c.unified x ≡ d)

  abbrev Emptying : Caches → Type 0
  Emptying c = Clean c × (c.invalidating ≡ true)

  abbrev Emptied : Caches → Type 0
  Emptied c = Clean c × (read_or (c.cached x) d ≡ d)

  abbrev Visible : Caches → Type 0
  Visible c = Emptied c × (read_or (c.ahead x) d ≡ d)

  Written-IsStable : IsStable Written
  unfolding happen
  Written-IsStable = record { evicted = λ c a p. p; refilled = λ c a p. p; prefetched = λ c a p. p }

  Cleaning-IsStable : IsStable Cleaning
  unfolding happen
  Cleaning-IsStable = record {
    evicted = λ c a p. p;
    refilled = λ c a p. p;
    prefetched = λ c a p. p;
  }

  evicted-Clean : (c : Caches) (a : ℕ) → Clean c → Clean (happen (evicts a) c)
  unfolding happen
  evicted-Clean c a p = (p.0, ground (arith, p.0, p.1))

  Clean-IsStable : IsStable Clean
  unfolding happen
  Clean-IsStable = record {
    evicted = evicted-Clean;
    refilled = λ c a p. p;
    prefetched = λ c a p. p;
  }

  Emptying-IsStable : IsStable Emptying
  unfolding happen
  Emptying-IsStable = record {
    evicted = λ c a p. (evicted-Clean c a p.0, p.1);
    refilled = λ c a p. p;
    prefetched = λ c a p. p;
  }

  Emptied-IsStable : IsStable Emptied
  unfolding happen
  Emptied-IsStable = record {
    evicted = λ c a p. (evicted-Clean c a p.0, p.1);
    refilled = λ c a p. (p.0, ground (arith, p.0.1, p.1));
    prefetched = λ c a p. p;
  }

  Visible-IsStable : IsStable Visible
  unfolding happen
  Visible-IsStable = record {
    evicted = λ c a p. ((evicted-Clean c a p.0.0, p.0.1), p.1);
    refilled = λ c a p. ((p.0.0, ground (arith, p.0.0.1, p.0.1)), p.1);
    prefetched = λ c a p. (p.0, ground (arith, p.0.0.1, p.0.1, p.1));
  }

  finish-Leads : Leads Cleaning finish_sync Visible
  unfolding effect
  finish-Leads =
      step-Leads Cleaning Clean Visible dsb _ Cleaning-IsStable
        (λ c p. (p.0, ground (arith, p.0, p.1)))
        (step-Leads Clean Emptying Visible iciallu _ Clean-IsStable (λ c p. (p, refl))
          (step-Leads Emptying Emptied Visible dsb _ Emptying-IsStable
            (λ c p. ((p.0.0, ground (arith, p.0.0, p.0.1)), ground (arith, p.1)))
            (step-Leads Emptied Visible Visible isb _ Emptied-IsStable (λ c p. (p, refl))
              (end-Leads Visible Visible-IsStable))))

  -- Further cleans change nothing.
  more-Leads : (n a : ℕ) → Leads Cleaning (lines a n ++ finish_sync) Visible
  unfolding effect
  more-Leads zero a = finish-Leads
  more-Leads (suc n) a =
      step-Leads Cleaning Cleaning Visible (dccmvau a) _ Cleaning-IsStable
        (λ c p. (p.0, ground (arith, p.1))) (more-Leads n (a + 32))

  lines-Leads :
      (n a : ℕ)
      → a % 32 ≡ 0
      → a ≤ x
      → x < a + 32 * n
      → Leads Written (lines a n ++ finish_sync) Visible
  unfolding effect
  lines-Leads zero a m l u = absurd (omega arith)
  lines-Leads (suc n) a m l u = elim (Bool-cases (same_line x a)) [
    | inl e ↦
        step-Leads Written Cleaning Visible (dccmvau a) _ Written-IsStable
          (λ c p. (p, ground (arith, e))) (more-Leads n (a + 32))
    | inr e ↦
        step-Leads Written Written Visible (dccmvau a) _ Written-IsStable (λ c p. p)
          (lines-Leads n (a + 32) (omega arith) (ground (arith, e)) (omega arith))
  ]

  fetch-Visible : (c : Caches) → Visible c → fetch c x ≡ d
  fetch-Visible c p = ground (arith, p.0.0.1, p.0.1, p.1)

-- icache_sync ends, after a clean of each line of the range, and from then on the processor executes
-- what was copied: after kmemcpy of an image to va, and then the instructions of icache_sync on
-- that range, with lines evicted, refilled and prefetched at any moment in between, every fetch in
-- the range sees the byte of the image. The range ends below the last line of the address space and the
-- fuel is above two rounds and one for each full line.
pub icache_sync_fetches :
    (fuel va x : ℕ) (image : List ℕ) (c : Caches) (es : List Event)
    → length image / 32 + 2 < fuel
    → va + length image + 32 < u32_mod
    → icache_sync fuel va (length image) ≡ some (issued es)
    → x < length image
    → (icache_sync fuel va (length image)
        ≡ some (lines (va / 32 * 32) (line_count va (length image)) ++ finish_sync))
      × (fetch (happens (record c { data_side = kmemcpy c.data_side va image }) es) (va + x)
          ≡ get_or image x 0)
icache_sync_fetches fuel va x image c es f w run lx =
    let shape = icache_sync-lines fuel va (length image) f w in
    let start = record c { data_side = kmemcpy c.data_side va image } in
    let os = lines (va / 32 * 32) (line_count va (length image)) ++ finish_sync in
    let same : issued es ≡ os = some-injective (issued es) os (sym run ∙ shape) in
    let copied : kmemcpy c.data_side va image (va + x) ≡ get_or image x 0 =
      kmemcpy_lem c.data_side va image (va + x) ∙ ground arith in
    (
      shape,
      fetch-Visible (va + x) (get_or image x 0) (happens start es) (
          lines-Leads (va + x) (get_or image x 0) (line_count va (length image)) (va / 32 * 32)
            (omega arith) (omega arith) (omega arith) es start same copied),
    )
