-- ===== src/Reviews.antt =====
-- assign1: a database of reviews with an index of keywords, and the program that searches it.
pub mod Memory
pub mod Keywords
pub mod Terms
pub mod Query
pub mod Search
pub mod Record
pub mod Compare
pub mod Arguments
pub mod Session
mod Tests
