-- ===== src/Auto.antt =====
-- proxy/gfwlist.go and proxy/auto_routing.go: the routing of hosts that no rule of the user names.
pub mod GfwList
pub mod Router
mod Samples
