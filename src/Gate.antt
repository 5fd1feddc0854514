-- ===== src/Gate.antt =====
-- gate/: the validation gates.
pub mod Quotes
pub mod Classify
pub mod Syntax
pub mod Attributes
mod Examples
