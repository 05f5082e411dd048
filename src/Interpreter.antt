-- ===== src/Interpreter.antt =====
-- Assignment04/src/interpreter.h and interpreter.cpp: the iterative interpreter.
pub mod Value
pub mod Runtime
pub mod Machine
pub mod Execute
pub mod Objects
pub mod Calls
pub mod Loop
pub mod Effect
pub mod Frames
pub mod References
pub mod Samples
mod Tests
