-- ===== src/Ssh.antt =====
-- transport/ssh/: the console transport over SSH.
pub mod Output
pub mod HostKeys
pub mod Errors
pub mod Dial
pub mod Session
mod Examples
