-- ===== src/Packet.antt =====
-- IPv4 packets in memory: network.cpp and icmp_checksum.c.
pub mod Checksum
pub mod Header
pub mod Unpack
pub mod Edit
pub mod Receive
pub mod Build
