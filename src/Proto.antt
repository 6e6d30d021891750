-- ===== src/Proto.antt =====
-- libraries/clio/include/clio/to_protobuf.hpp, from_protobuf.hpp and tuple.hpp: the protobuf format.
pub mod Types
pub mod Write
pub mod Read
pub mod Encode
pub mod Numbers
pub mod Written
pub mod Loops
pub mod Members
pub mod Fields
pub mod Objects
pub mod RoundTrip
pub mod Found
pub mod Safe
pub mod Unknown
pub mod Versions
pub mod Earlier
mod Runs
