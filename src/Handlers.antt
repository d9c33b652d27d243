-- ===== src/Handlers.antt =====
-- proxy/tls_fragment.go, proxy/proxy.go and proxy/socks5.go: what the handlers do to the connections that
-- they are given and that they open.
pub mod Lifetime
pub mod Fragment
pub mod Upstream
pub mod Mitm
pub mod Connect
pub mod Socks
pub mod Http
pub mod Forward
mod Samples
