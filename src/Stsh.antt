-- ===== src/Stsh.antt =====
-- assign4: stsh, a shell with job control.
pub mod Process
pub mod Job
pub mod JobList
pub mod Shell
pub mod Hoare
pub mod Signals
pub mod Prompt
pub mod Builtins
pub mod Create
pub mod Main
mod Tests
