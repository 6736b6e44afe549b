-- ===== src/Understanding.antt =====
-- The understanding of a request: what the model proposes, what is kept of it, and what it starts.
pub mod Contracts
pub mod Output
pub mod Span
pub mod Durable
pub mod Project
pub mod Closure
pub mod Graph
pub mod Decision
pub mod Reducer
pub mod Revalidation
