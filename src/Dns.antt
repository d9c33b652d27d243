-- ===== src/Dns.antt =====
-- proxy/doh.go: names resolved over HTTPS, with failover between the nodes of the configuration.
pub mod Message
pub mod Exchange
pub mod Resolve
mod Samples
