-- ===== src/Prelude.antt =====
-- The helpers that every component shares: tests, lists, integers, equality, dicts.
pub mod Tests
pub mod Lists
pub mod Core
pub mod Equality
pub mod Int
pub mod Json
pub mod Sort
pub mod Text
pub mod Strings
pub mod Dict
