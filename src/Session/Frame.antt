-- ===== src/Session/Frame.antt =====
-- What an operation on one torrent leaves alone: the queue, its map, and every torrent's hash.
mod Rules
mod Operations
mod Starting
mod Logging
mod State
pub use Rules.*
pub use Operations.*
pub use Starting.*
pub use Logging.*
pub use State.*
