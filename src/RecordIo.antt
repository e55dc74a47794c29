-- ===== src/RecordIo.antt =====
-- zk/src/c/src/recordio.c: the archives that write and read the jute wire format. The tags that
-- its functions take are ignored there, and are left out here.
mod Bytes
pub mod Archive
pub mod Grow
pub mod Write
pub mod Read
pub mod RoundTrip
pub mod Negative
unfoldable pub use Bytes.*
