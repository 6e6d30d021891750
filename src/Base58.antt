-- ===== src/Base58.antt =====
-- libraries/clcrypto/base58.cpp: bytes as a number in base 58, and back.
pub mod Convert
pub mod Chars
pub mod Numbers
pub mod Steps
pub mod RoundTrip
pub mod Buffer
mod Runs
