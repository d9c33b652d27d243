-- ===== src/Rules.antt =====
-- proxy/proxy.go, the rule manager: which rule a host falls under, and how rules are kept.
pub mod Types
pub mod Domain
pub mod Match
pub mod Build
pub mod Ech
pub mod Website
pub mod Load
pub mod EchSync
pub mod Manage
pub mod Import
mod Samples
mod ConfigSamples
mod LoadSamples
