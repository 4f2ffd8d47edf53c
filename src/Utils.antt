-- ===== src/Utils.antt =====
-- test/utils/utils.go: its helpers. A text that is looked into is the list of its bytes.
pub mod Lines
pub mod Uncomment
pub mod CertManager
pub mod Commands
