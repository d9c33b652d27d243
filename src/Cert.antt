-- ===== src/Cert.antt =====
-- proxy/cert_verify.go: which certificate of an upstream is accepted.
pub mod Verify
pub mod Client
mod Samples
