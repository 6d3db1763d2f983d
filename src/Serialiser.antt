-- ===== src/Serialiser.antt =====
-- serialiser.h: the packet classes, the sender and the parser.
pub mod Sender
pub mod Reader
pub mod Pack
pub mod Parser
pub mod RoundTrip
pub mod Corruption
mod Tests
mod Trials
pub mod Framing
pub mod Checksum
pub mod Wire
pub mod Numbers
pub mod Values
