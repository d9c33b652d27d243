-- ===== src/Net.antt =====
-- Addresses of hosts, and the candidates that the proxy dials for them.
pub mod Address
pub mod Candidates
pub mod ServerName
mod Samples
