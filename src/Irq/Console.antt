-- ===== src/Irq/Console.antt =====
-- The messages of the kernel on their way through the driver of the console: uart_putc of
-- kernel/drivers/uart/uart_core.c calls `console->ops->putc` for each byte that `Kernel.out` collects.
use refix_os.Common.{ℕ, ◌<◌, ◌≡◌, Option, some, length, drop}
use refix_os.Irq.Bus.{Bus}
use refix_os.Irq.Output.{put_all, putc_of}
use refix_os.Irq.Transmit.{HasRoom, put_all_ends}
use refix_os.Kernel.{Kernel}
use refix_os.Mmu.{Board}

module _ {D : Type 0} (bus : Bus D) (fuel : ℕ) (b : Board) where
  -- What has been printed from state k to state k' goes out through the console's chip.
  unfoldable pub transmit : Kernel → Kernel → D → Option D
  transmit k k' d = put_all (putc_of b bus fuel) d (drop (length k.out) k'.out)

  pub transmit_ends :
      (wait : D → ℕ) (limit : ℕ) (k k' : Kernel) (d : D)
      → HasRoom b bus wait limit
      → limit < fuel
      → (d' : D) × (transmit k k' d ≡ some d')
  unfolding transmit
  transmit_ends wait limit k k' d room f =
      put_all_ends b bus wait limit fuel f (drop (length k.out) k'.out) d room
