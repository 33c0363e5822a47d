-- ===== src/ByteArray.antt =====
-- The byte buffer of serverframework/util/bytearray.h and bytearray.cc.
pub mod Chain
pub mod Buffer
pub mod Invariant
pub mod File
pub mod Refine
pub mod Reading
pub mod Order
pub mod Pending
pub mod Whole
pub mod Buffers
pub mod Fixed
pub mod Varint
pub mod Strings
pub mod Tests
