-- ===== src/Pool.antt =====
-- proxy/cf_pool.go: the pool of Cloudflare addresses.
pub mod Stats
pub mod Sorted
pub mod Active
pub mod Entries
pub mod Reach
mod Samples
