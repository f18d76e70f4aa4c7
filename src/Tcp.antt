-- ===== src/Tcp.antt =====
-- common/protocol/TCP: the packets by which a client asks for its last game and the scoreboard.
pub mod Parser
pub mod Packets
pub mod RoundTrip
pub mod Reports
