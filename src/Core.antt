-- ===== src/Core.antt =====
-- src/core: the reading and the writing of the wire format's primitive types.
pub mod Wire
pub mod Reader
pub mod Writer
pub mod RoundTrip
pub mod ZigZag
pub mod Bounds
pub mod Hexdump
