-- ===== src/Boot/Icache.antt =====
-- icache_sync of kernel/proc/process.c, as the cache and barrier instructions that it issues, and a
-- model of the caches that they act on.
pub mod Fetched
use refix_os.Common.{
  ℕ, List, Option, if◌then◌else◌, Bool, ◌||◌, ◌++◌, none, [], ◌/◌, ◌∷◌, some, ◌*◌, false, suc, ◌==◌,
  true, add32, ltb, zero,
}
use mathlib.Core.Option as Option

pub data CacheOp : Type 0 where
  dccmvau : ℕ → CacheOp
  dsb iciallu isb : CacheOp

-- `for (uintptr_t a = start; a < end; a += 32)`
unfoldable pub clean_lines : ℕ → ℕ → ℕ → Option (List CacheOp)
clean_lines zero a end = none
clean_lines (suc fuel) a end =
    let rest = clean_lines fuel (add32 a 32) end in
    if ltb a end then Option.map (λ os. dccmvau a ∷ os) rest else some []

abbrev pub finish_sync : List CacheOp
finish_sync = dsb ∷ iciallu ∷ dsb ∷ isb ∷ []

unfoldable pub icache_sync : ℕ → ℕ → ℕ → Option (List CacheOp)
icache_sync fuel va len =
    Option.map (λ os. os ++ finish_sync) (clean_lines fuel (va / 32 * 32) (add32 va len))

-- Bytes by address: what the data side reads, what is behind both caches, what the instruction cache
-- holds, and what is fetched ahead of the processor. A clean and an invalidation are complete at the next DSB.
pub record Caches : Type 0 where
  pub data_side : ℕ → ℕ
  pub unified : ℕ → ℕ
  pub cached : ℕ → Option ℕ
  pub ahead : ℕ → Option ℕ
  pub cleaning : ℕ → Bool
  pub invalidating : Bool

abbrev pub same_line : ℕ → ℕ → Bool
same_line x y = x / 32 == y / 32

unfoldable pub effect : CacheOp → Caches → Caches
effect (dccmvau a) c = record c { cleaning = λ x. same_line x a || c.cleaning x }
effect dsb c = record c {
  unified = λ x. if c.cleaning x then c.data_side x else c.unified x;
  cached = λ x. if c.invalidating then none else c.cached x;
  cleaning = λ x. false;
  invalidating = false;
}
effect iciallu c = record c { invalidating = true }
effect isb c = record c { ahead = λ x. none }

abbrev pub read_or : Option ℕ → ℕ → ℕ
read_or none v = v
read_or (some w) v = w

-- What the processor executes at an address.
abbrev pub fetch : Caches → ℕ → ℕ
fetch c x = read_or (c.ahead x) (read_or (c.cached x) (c.unified x))

-- The caches may move lines at any moment between the instructions.
pub data Event : Type 0 where
  does : CacheOp → Event
  evicts refills prefetches : ℕ → Event

unfoldable pub happen : Event → Caches → Caches
happen (does o) c = effect o c
happen (evicts a) c = record c {
  unified = λ x. if same_line x a then c.data_side x else c.unified x;
}
happen (refills a) c = record c {
  cached = λ x. if same_line x a then some (c.unified x) else c.cached x;
}
happen (prefetches a) c = record c {
  ahead = λ x. if same_line x a then some (read_or (c.cached x) (c.unified x)) else c.ahead x;
}

abbrev pub happens : Caches → List Event → Caches
happens c [] = c
happens c (e ∷ es) = happens (happen e c) es

abbrev pub issued : List Event → List CacheOp
issued [] = []
issued (does o ∷ es) = o ∷ issued es
issued (evicts a ∷ es) = issued es
issued (refills a ∷ es) = issued es
issued (prefetches a ∷ es) = issued es
