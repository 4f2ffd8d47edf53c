-- ===== src/Dataplane.antt =====
-- bpf/: the two programs on the data path, as functions on the bytes of a packet.
pub mod Packet
pub mod Ingress
pub mod Egress
