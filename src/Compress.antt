-- ===== src/Compress.antt =====
-- libraries/clio/include/clio/compress.hpp: the packing of words with zero bytes.
pub mod Pack
pub mod Unpack
pub mod Tags
pub mod Words
pub mod Rounds
pub mod Packed
pub mod Zeros
pub mod RoundTrip
pub mod Safe
mod Runs
