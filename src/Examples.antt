-- ===== src/Examples.antt =====
-- The theorems at concrete inputs.
pub mod Evaluation
pub mod Caching
pub mod Shipping
pub mod Failing
pub mod Serving
pub mod Signing
pub mod Timing
pub mod Requests
pub mod Leaving
pub mod Enrolling
pub mod Rotating
pub mod Recovering
pub mod Running
