-- ===== src/Tun.antt =====
-- proxy/tun_flow.go: how a flow of the TUN device would be carried.
pub mod Plan
mod Samples
