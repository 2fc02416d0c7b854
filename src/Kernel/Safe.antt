-- ===== src/Kernel/Safe.antt =====
-- What the kernel may do on behalf of process c: keep its invariant, and write to the memory that
-- process c can itself write.
-- Of the two memories one differs from the other in the user window of process c at most.
use refix_os.Common.{ℕ, ◌≢◌, ◌≡◌, ◌<◌, ◌⊎◌, ◌+◌, ◌≤◌}
use refix_os.Kernel.{Kernel}
use refix_os.Kernel.Sound.{IsSound}
use refix_os.Syscall.Pointer.{user_virt_base, user_region_size}

pub record IsConfined (c : ℕ) (k k' : Kernel) : Type 0 where
  pub others : (j va : ℕ) → j ≢ c → k'.mem j va ≡ k.mem j va
  pub outside :
      (va : ℕ)
      → (va < user_virt_base) ⊎ (user_virt_base + user_region_size ≤ va)
      → k'.mem c va ≡ k.mem c va

pub record IsSafe (c : ℕ) (k k' : Kernel) : Type 0 where
  pub sound : IsSound k'
  pub confined : IsConfined c k k'

pub same_mem-IsSafe : (c : ℕ) (k k' : Kernel) → IsSound k' → k'.mem ≡ k.mem → IsSafe c k k'
same_mem-IsSafe c k k' s e = record {
  sound = s;
  confined = record { others = λ j va ne i. e i j va; outside = λ va o i. e i c va };
}
