-- ===== src/Tests.antt =====
-- Runs of the development at concrete inputs.
mod Samples
mod Forwarding
mod Sessions
mod Backends
mod Proxying
mod Clients
mod Tunnels
mod Starting
mod Site
mod Outages
mod Threads
mod Views
