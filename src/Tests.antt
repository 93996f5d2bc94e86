-- ===== src/Tests.antt =====
-- Small runs of the modelled code on concrete inputs, a file for each part.
mod Handshake
mod Auth
mod ConnReq
mod Buffers
mod Users
mod Admin
mod Fixture
mod Connections
mod Pieces
mod Commands
mod Machine
mod Selectors
mod Answers
mod Administrators
mod Clients
