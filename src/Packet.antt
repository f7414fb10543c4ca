-- ===== src/Packet.antt =====
-- class Packet (src/packet.h, src/packet.cpp) and the message headers.
pub mod Headers
pub mod Buffer
pub mod Append
pub mod Extract
pub mod View
pub mod Moves
pub mod Numbers
pub mod Transport
pub mod Items
unfoldable pub use Headers.*
unfoldable pub use Buffer.*
unfoldable pub use Append.*
unfoldable pub use Extract.*
