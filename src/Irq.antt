-- ===== src/Irq.antt =====
-- kernel/drivers/intc/intc_core.c and the interrupt path through the chip drivers to the cores. The
-- interrupt controller chip is a record of its operations, over the state of the devices.
pub mod Bus
pub mod Core
pub mod Uart
pub mod Drained
pub mod Output
pub mod Transmit
pub mod Timers
pub mod Gic
pub mod Am335x
pub mod Lines
pub mod Acknowledge
pub mod Polling
pub mod Boards
pub mod Handlers
pub mod Console
pub mod Settled
pub mod Dispatched
pub mod Filled
pub mod Preempt
pub mod Ended
mod Tests
mod PollingTests
