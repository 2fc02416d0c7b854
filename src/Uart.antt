-- ===== src/Uart.antt =====
-- kernel/drivers/uart/uart_core.c: the receive ring and the formatted output.
pub mod Ring
pub mod Format
