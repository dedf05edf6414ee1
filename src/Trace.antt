-- ===== src/Trace.antt =====
-- assign3: the program trace, which prints the system calls of another program.
pub mod Options
pub mod Params
pub mod Tables
pub mod Signatures
pub mod Store
pub mod Print
mod Tests
