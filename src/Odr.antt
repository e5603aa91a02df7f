-- ===== src/Odr.antt =====
-- The on-demand routing process of hw3: `odr.c` and the part of `common.c` that it uses.
-- `Types` has the structs of `common.h`, `Table` and `Buffer` the operations on the two global
-- arrays, `Send` the frames that are sent, `Process` the handler of a received frame, and `Loop`
-- the body of the event loop.
pub mod Types
pub mod Table
pub mod Buffer
pub mod Send
pub mod Local
pub mod Process
pub mod Loop
pub mod Boot
pub mod Neighbours
pub mod Line
