-- ===== src/DeepCopy.antt =====
-- api/v1alpha1/zz_generated.deepcopy.go, on an explicit memory.
pub mod Memory
pub mod Copies
pub mod Objects
pub mod Shape
pub mod Leaves
pub mod Slices
pub mod Structs
pub mod Lists
pub mod Meaning
pub mod Independence
