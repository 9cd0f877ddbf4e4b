-- ===== src/Server.antt =====
-- engine/src/server/handler: commands, the answers to them, and what a connection may ask.
pub mod Command
pub mod Response
pub mod Outside
pub mod States
pub mod Waits
pub mod KvHandler
pub mod Handler
pub mod Session
