-- ===== src/Key.antt =====
-- libraries/clio/include/clio/to_key.hpp: keys, whose order as bytes is the order of the values.
pub mod Types
pub mod Write
pub mod Encode
pub mod Order
pub mod Numbers
pub mod Floats
pub mod Parts
pub mod Ranges
pub mod Compare
pub mod Convert
mod Runs
