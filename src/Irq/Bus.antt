-- ===== src/Irq/Bus.antt =====
-- Memory-mapped registers. The devices behind them are hardware, not code of the repository: a state
-- of any type, with what a 32-bit load and store, and a store of a byte, do to it.
use refix_os.Common.{ℕ}

pub record Bus (D : Type 0) : Type 0 where
  pub load : D → ℕ → ℕ × D
  pub store : D → ℕ → ℕ → D
  pub store8 : D → ℕ → ℕ → D
