-- ===== src/Wire.antt =====
-- The binary WSG protocol of wsg50_driver/src/transport.cpp, below the connection.
pub mod Bytes
pub mod Crc
pub mod Bits
pub mod Frame
mod Examples
