-- ===== src/Stream.antt =====
-- libraries/clio/include/clio/stream.hpp: the errors that the streams throw, the outcome of code
-- that may throw, and the streams themselves in the modules below. A byte is a number below 256.
mod Outcome
pub mod Input
pub mod Leaves
pub mod Check
pub mod Sink
pub mod Vector
pub mod Size
pub mod FixedBuf
pub mod Memory
pub mod Pretty
pub use Outcome.*
