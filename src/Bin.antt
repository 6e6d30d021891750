-- ===== src/Bin.antt =====
-- libraries/clio/include/clio/{to_bin,from_bin}.hpp: the binary format. The overloads are chosen by the
-- C++ type; here a type is a value of `Ty`, and each overload a clause. A size_t has 64 bits.
pub mod Types
pub mod Write
pub mod Read
pub mod Encode
pub mod RoundTrip
pub mod Convert
pub mod Bounds
mod Runs
