-- ===== src/Tests.antt =====
-- The theorems at concrete inputs, and small runs of the modelled code.
mod Samples
mod Tallies
mod Manager
mod Sending
mod Files
mod Sockets
mod Proxies
mod Window
mod Applying
mod Configs
mod Protocols
mod Loops
mod Datagrams
