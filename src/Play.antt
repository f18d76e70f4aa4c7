-- ===== src/Play.antt =====
-- A client and the server that it plays against.
pub mod Network
pub mod Turns
pub mod Texts
pub mod Starts
pub mod Tries
pub mod Rules
pub mod Answers
pub mod Tried
pub mod Decided
pub mod Follows
pub mod Ends
pub mod Quits
pub mod Trials
pub mod InStep
