-- ===== src/Connect.antt =====
-- proxy/proxy.go: from a request of a client to the connection of the proxy with an upstream.
pub mod Prepare
pub mod Dial
mod Samples
