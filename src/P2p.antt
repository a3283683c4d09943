-- ===== src/P2p.antt =====
-- libx/x/p2p: the wire formats of STUN and TURN, and the order of candidate pairs.
pub mod Wire
mod Frames
pub mod Message
pub mod Attr
pub mod Address
pub mod Reason
pub mod Channel
pub mod Pair
