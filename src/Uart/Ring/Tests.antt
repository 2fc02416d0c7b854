-- ===== src/Uart/Ring/Tests.antt =====
-- The receive ring at concrete states.
use refix_os.Uart.Ring.Queue
use refix_os.Uart.Ring.Refine
use refix_os.Common.{List, ◌≡◌, arith, ◌∷◌, [], replicate, ◌++◌, some, none, refl}
use refix_os.Uart.Ring.Refine.{IsValid}
use refix_os.Uart.Ring.{Ring, uart_rx_push, uart_rx_pop}
use refix_os.Uart.Ring.Queue.{Event, arrive, read}
use refix_os.Uart.Ring.Refine.{run_refines}

-- The head has wrapped at 2 ^ 32 and the tail is about to: two bytes wait, in slots 127 and 0.
abbrev wrapping : Ring
wrapping = record { rx_buf = 66 ∷ replicate 126 0 ++ 65 ∷ []; rx_head = 1; rx_tail = 0xffff_ffff }

wrapping-IsValid : IsValid wrapping
wrapping-IsValid = omega arith

abbrev history : List Event
history = arrive 67 ∷ read ∷ read ∷ read ∷ read ∷ []

history-run : Refine.run wrapping history ≡ some 65 ∷ some 66 ∷ some 67 ∷ none ∷ []
unfolding Refine.run uart_rx_push uart_rx_pop
history-run = refl

run_refines_example : Refine.run wrapping history ≡ Queue.run (65 ∷ 66 ∷ []) history
run_refines_example = run_refines wrapping history wrapping-IsValid
