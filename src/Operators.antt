-- ===== src/Operators.antt =====
-- src/operators: what the operators of a graph do with the values that reach them.
pub mod Join
