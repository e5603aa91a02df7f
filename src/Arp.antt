-- ===== src/Arp.antt =====
-- The address resolution process of hw4: `arp.c`. `Types` has the structs, `Cache` the operations on
-- the cache, `Process` the handlers of frames and of clients.
pub mod Types
pub mod Cache
pub mod Process
pub mod Loop
pub mod Boot
pub mod Areq
