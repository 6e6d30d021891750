-- ===== src/Varint.antt =====
-- libraries/clio/include/clio/{varint,to_bin,from_bin}.hpp: 32-bit integers in 1 to 5 bytes, seven
-- bits a byte, lowest group first, with the top bit set on every byte but the last.
pub mod Write
pub mod Read
pub mod Groups
pub mod RoundTrip
pub mod Bounds
pub mod Leaves
pub mod ZigZag
mod Runs
