-- ===== src/Codegen.antt =====
-- core/codegen.cc.
pub mod Ast
pub mod Builder
pub mod Expressions
pub mod Statements
pub mod Visit
pub mod Jumps
mod Tests
