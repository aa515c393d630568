-- ===== src/Buffer/Words.antt =====
-- The integers of base/buffer.c: each is appended, prepended, peeked at, taken away and read as
-- the bytes of its bit pattern, in big endian order unless the name says LE.
mod Kinds
mod Laws
unfoldable pub use Kinds.*
pub use Laws.*
