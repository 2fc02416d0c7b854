-- ===== src/Machine/FairnessTests.antt =====
-- A run of a machine in which a process is passed over by a timer interrupt.
use refix_os.Common.{◌≡◌, some, ◌⊎◌, if◌then◌else◌, ◌==◌, add32, arith, refl, none}
use refix_os.Machine.{Steps, Machine, interrupt_at, onwards, interrupts, done, fresh, user}
use refix_os.Machine.Well.{IsWell}
use refix_os.Irq.Core.{IntcOps, irq_dispatch, timer_irq}
use refix_os.Irq.Bus.{Bus}
use refix_os.Samples.{busy-IsSound, kernel_of_others}
use refix_os.Exception.{handle_irq}
use refix_os.Mmu.{qemu}
use refix_os.Irq.Handlers.{run_handler}
use refix_os.Machine.Fairness.{ticked_once, IsPassedOver}
use refix_os.Irq.Timers.{sp804_irq, tick}
use refix_os.Timer.{timer_tick}
use refix_os.Proc.{ready}
use refix_os.Sched.{scheduler_tick, schedule, round_robin, ring_walk, perform_switch, reschedule}

abbrev empty_bus : Bus (Unit {0})
empty_bus = record { load = λ d a. (0, d); store = λ d a v. d; store8 = λ d a v. d }

abbrev timer_ops : IntcOps (Unit {0})
timer_ops = record {
  init = λ d. some d;
  enable_line = λ d irq. d;
  disable_line = λ d irq. d;
  get_active = λ d. (36, d);
  eoi = λ d irq. d;
}

-- All three can run, and the controller reports the timer.
abbrev ticking : Machine (Unit {0})
ticking = record {
  intc = record { device = tt; irq_table = λ n. if n == 36 then some timer_irq else none };
  kernel = kernel_of_others ready;
  conts = λ i. fresh;
  mode = user;
}

ticking-IsWell : IsWell ticking
ticking-IsWell = record {
  sound = busy-IsSound;
  active = (1, refl);
  window = λ i ctx e. absurd (ground (arith, e));
  retired = λ i e. absurd (ground (arith, e));
}

abbrev ticked : Machine (Unit {0})
ticked = interrupt_at empty_bus timer_ops qemu 1 tt ticking

abbrev one_tick : Steps empty_bus timer_ops qemu ticking ticked
one_tick = onwards ticking ticked ticked (interrupts ticking 1 tt refl) (done ticked)

-- The processor goes from process 1 to process 2, and process 0 waits.
passed_over : IsPassedOver empty_bus timer_ops qemu 0 one_tick
unfolding interrupt_at handle_irq irq_dispatch run_handler sp804_irq tick timer_tick scheduler_tick
    schedule round_robin ring_walk perform_switch reschedule
passed_over = (
  record { could = refl; not_current = λ e. ground (arith, e) },
  tt,
  record { could = refl; not_current = λ e. ground (arith, e) },
)

ticked_once_example :
    (ticked.kernel.timer.tick_count ≡ ticking.kernel.timer.tick_count)
    ⊎ (ticked.kernel.timer.tick_count ≡ add32 ticking.kernel.timer.tick_count 1)
ticked_once_example =
    ticked_once empty_bus timer_ops qemu ticking ticked one_tick 0 1 ticking-IsWell refl
      (omega arith) refl refl (λ e. ground (arith, e)) passed_over
