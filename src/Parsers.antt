-- ===== src/Parsers.antt =====
-- src/server/socks5/parsers: the parsers of the three client messages, over the engine.
pub mod Outcome
pub mod Handshake
pub mod Auth
pub mod ConnReq
