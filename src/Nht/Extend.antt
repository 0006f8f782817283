-- ===== src/Nht/Extend.antt =====
-- ht_extend keeps every entry of a table from which nothing was deleted.
pub mod State
pub mod Exchange
pub mod Place
pub mod Rehash
pub mod Start
pub mod Fresh
pub mod Enter
mod Samples
