-- ===== src/Packet.antt =====
-- The message headers of aodv-packet.h and aodv-packet.cc, one module for each.
pub mod Flags
pub mod TypeHeader
pub mod Rreq
pub mod Rrep
pub mod RrepAck
pub mod Rerr
pub mod RoundTrip
pub mod Unreachable
mod Tests
