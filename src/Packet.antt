-- ===== src/Packet.antt =====
-- server/src/network/packet_types.cpp and server/include/pvpserver/network/packet_types.h: the
-- big-endian buffer primitives, the packets over them, and what their codecs promise.
pub mod Buffer
pub mod Types
pub mod Codec
pub mod RoundTrip
mod Examples
