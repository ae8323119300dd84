-- ===== src/Prelude.antt =====
-- The names that the other modules share.
pub mod Tests
pub mod Lists
pub mod Sort
pub mod Dict
pub mod Int
pub mod Text
pub mod Words
pub mod Prefix
pub mod Maybe
