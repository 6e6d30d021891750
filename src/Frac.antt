-- ===== src/Frac.antt =====
-- libraries/clio/include/clio/fracpack.hpp: a format of offsets, whose values can be read in place.
pub mod Types
pub mod Memory
pub mod Write
pub mod Encode
pub mod Place
pub mod Pieces
pub mod Valid
pub mod Slots
pub mod Packed
pub mod Size
pub mod Sized
pub mod Read
pub mod Objects
pub mod Taken
pub mod TakenAll
pub mod Opened
pub mod Structs
pub mod RoundTrip
pub mod Versions
pub mod Check
pub mod Follow
pub mod Checked
pub mod Safe
pub mod Counted
pub mod Accepted
pub mod Accepts
pub mod Pointer
mod Runs
