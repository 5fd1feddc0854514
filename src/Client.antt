-- ===== src/Client.antt =====
-- The client of the package `routeros`: replies, the synchronous and the asynchronous mode.
pub mod Reply
pub mod Sync
pub mod Login
pub mod Life
pub mod Entry
pub mod Conversation
pub mod Processor
pub mod Async
pub mod Translate
mod Examples
