-- ===== src/Scale.antt =====
-- internal/scale: the protocol of the A&D scales, and the client that holds the serial port.
pub mod Text
pub mod Protocol
pub mod Client
pub mod Loop
pub mod Lines
pub mod Replies
