-- ===== src/Jute.antt =====
-- zk/src/c/generated/zookeeper.jute.c: the messages that the client sends and receives.
pub mod Types
pub mod Vector
pub mod Format
pub mod Serialize
pub mod Deserialize
pub mod Writers
pub mod Readers
pub mod Packets
pub mod Truncated
