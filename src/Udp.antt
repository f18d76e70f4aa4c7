-- ===== src/Udp.antt =====
-- common/protocol/UDP: the packets that go over UDP, their encoders and decoders.
pub mod Parser
pub mod Requests
pub mod Replies
