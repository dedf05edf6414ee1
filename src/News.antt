-- ===== src/News.antt =====
-- assign5: the news aggregator and its thread pool.
pub mod Index
pub mod Text
pub mod Aggregator
pub mod Pool
pub mod Log
pub mod Query
pub mod Setup
mod Tests
