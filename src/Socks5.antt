-- ===== src/Socks5.antt =====
-- src/server/socks5: a SOCKSv5 connection, from the accept to the copy phase.
pub mod World
pub mod Calls
pub mod Machine
pub mod Write
pub mod Connect
pub mod Read
pub mod Copy
pub mod Events
pub mod Accept
pub mod Interest
pub mod Steps
pub mod Forward
pub mod Sending
pub mod Reading
pub mod Answer
pub mod Login
pub mod Ends
pub mod Greeting
pub mod Authentication
pub mod Limit
pub mod Pieces
pub mod Closing
