-- ===== src/Processes.antt =====
-- assign3/subprocess.cc and pipeline.c: processes joined by pipes.
pub mod Descriptors
pub mod Subprocess
pub mod Pipeline
mod Tests
