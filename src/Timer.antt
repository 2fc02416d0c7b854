-- ===== src/Timer.antt =====
-- kernel/drivers/timer/timer_core.c: the tick counter and the callback. The call of the
-- callback is in Irq.Timers, with the chip drivers.
use refix_os.Common.{ℕ, Option, some, add32}

-- The functions that `timer_set_handler` is given: kernel/main.c gives `scheduler_tick`.
pub data TimerHandler : Type 0 where
  on_scheduler_tick : TimerHandler

pub record Timer : Type 0 where
  pub tick_count : ℕ
  pub user_handler : Option TimerHandler

abbrev pub timer_get_ticks : Timer → ℕ
timer_get_ticks t = t.tick_count

unfoldable pub timer_set_handler : Timer → TimerHandler → Timer
timer_set_handler t fn = record t { user_handler = some fn }

-- `timer_tick`: the counter wraps at 2 ^ 32; the result is the callback to make.
unfoldable pub timer_tick : Timer → Timer × Option TimerHandler
timer_tick t = (record t { tick_count = add32 t.tick_count 1 }, t.user_handler)
