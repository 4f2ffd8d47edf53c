-- ===== src/Startup.antt =====
-- cmd/main.go: the flags, the options made of them, and the start of the manager.
pub mod Flags
pub mod CommandLine
pub mod Servers
pub mod Run
