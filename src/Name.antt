-- ===== src/Name.antt =====
-- libraries/clio/include/clio/{get_type_name,name,murmur}.hpp: names of up to 13 characters packed into a
-- uint64_t, five bits a character and four for the last, and the hash that stands in for other texts.
pub mod Strict
pub mod Print
pub mod Steps
pub mod Digits
pub mod Trailing
pub mod RoundTrip
pub mod Lenient
pub mod Murmur
pub mod Collide
mod Runs
