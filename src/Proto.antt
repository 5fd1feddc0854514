-- ===== src/Proto.antt =====
-- proto/: the words and sentences of the RouterOS API on the wire.
pub mod Sentence
pub mod Length
pub mod Writer
pub mod Reader
pub mod Cancel
mod Examples
