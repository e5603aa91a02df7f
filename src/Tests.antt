-- ===== src/Tests.antt =====
-- The theorems at concrete inputs, and runs of the models: one module for each program.
mod Odr
mod TimeServer
mod Arp
mod Transfer
mod Tour
mod Sender
mod Locality
mod Net
mod Neighbours
mod Line
mod Rtt
mod Wire
mod Echo
mod Boot
mod Ping
