-- ===== src/Verifier.antt =====
-- Assignment04/src/verifier.h and verifier.cpp: the static check of a bytecode file, which also
-- writes the stack depth that each function needs into its BEGIN instruction.
pub mod StackSize
pub mod WorksetEntry
pub mod State
pub mod Delta
pub mod Process
pub mod Visit
pub mod Operands
pub mod Merge
pub mod Keeps
pub mod Depths
pub mod Bounds
mod Tests
pub mod Traverse
