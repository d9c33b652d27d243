-- ===== src/Tls.antt =====
-- proxy/tls_fragment.go: the ClientHello on its way to the upstream, cut into TLS records.
pub mod Hello
pub mod Fragment
pub mod SampleHellos
mod Samples
