-- ===== src/Expr.antt =====
-- The expression engine of wq_workflow/core: syntax trees, the operator tables, the lexer and
-- parser, the serializer, the mutation constraints and the structural mutator.
pub mod Operators
pub mod Ast
pub mod Constraints
pub mod Paths
pub mod Result
pub mod Token
pub mod Lexer
pub mod Floats
pub mod Parser
pub mod Printer
pub mod Mutator
pub mod Pipeline
pub mod Roundtrip
