-- ===== src/Mailbox/Invariant.antt =====
-- What holds of a mailbox (source/session/BoundedMpscMailbox.h) at every moment.
mod Defs
mod Facts
mod Reserve
mod Construct
mod Publish
mod Produce
mod Take
mod Release
mod Consume
mod Reachable
pub use Defs.*
pub use Facts.{full-room, window_sequence, holds-Knows}
pub use Reachable.*
