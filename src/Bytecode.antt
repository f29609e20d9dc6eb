-- ===== src/Bytecode.antt =====
-- src/runtime/Opcodes.h, BytecodeModule.h and BytecodeModule.cpp: the code of a function body.
pub mod Opcodes
pub mod Pool
mod Tests
pub mod Module
pub mod MaxStack
