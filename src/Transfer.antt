-- ===== src/Transfer.antt =====
-- The file transfer of hw2: the client's end, the server's end and its timer, the two of them with a
-- network between, and the choice of an interface.
pub mod Receiver
pub mod Rtt
pub mod Sender
pub mod Locality
pub mod Addresses
pub mod Wire
pub mod Net
pub mod Handover
