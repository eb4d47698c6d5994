-- ===== src/Tests.antt =====
-- The theorems at concrete inputs.
mod Toy
mod Inspector
mod Listener
mod Tables
mod Buffers
mod Sockets
mod Connections
mod Proxy
mod Served
mod Http
mod Ports
mod Messages
