-- ===== src/Pxi.antt =====
-- The commands that the ARM11 sends to the ARM9: source/hardware/pxi.c, the functions of the ARM11
-- that send them (Pxi/Client), and source/arm9/ipc_handler.c (Pxi/Handler).
pub mod Commands
pub mod Client
pub mod Handler
pub mod Exchange
pub mod Remote
pub mod Sequence
mod Tests
