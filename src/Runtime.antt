-- ===== src/Runtime.antt =====
-- The runtime around the proxy, core_runtime.go.
mod RingLog
mod Mihomo
mod Core
mod Samples
