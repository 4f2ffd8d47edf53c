-- ===== src/Bpf.antt =====
-- pkg/bpf/: the Go side of the eBPF programs.
pub mod Key
pub mod Entry
pub mod Kernel
pub mod Objects
pub mod Loader
pub mod Contract
