-- ===== src/Shell.antt =====
-- The shell of shell/: its job table and its parser.
pub mod Jobs
pub mod Foreground
pub mod History
pub mod Interpreter
pub mod Line
pub mod Remote
pub mod Redirect
pub mod Parser
mod Sessions
mod Examples
