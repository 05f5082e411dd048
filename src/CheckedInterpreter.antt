-- ===== src/CheckedInterpreter.antt =====
-- Assignment02/src/interpreter.h and interpreter.cpp: the interpreter that makes all checks while it runs.
-- Its values, its frames and its stack are those of Assignment04 up to the namespace.
pub mod Machine
pub mod Execute
pub mod Objects
pub mod Calls
pub mod Loop
pub mod Refines
pub mod Reports
mod Tests
