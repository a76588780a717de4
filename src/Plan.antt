-- ===== src/Plan.antt =====
-- plan.go, metadata.go and content_patterns.go: planning a run.
pub mod Types
pub mod State
pub mod Content
pub mod Metadata
pub mod Config
pub mod Entries
pub mod Tree
pub mod Invariant
pub mod Rules
pub mod Steps
pub mod Soundness
pub mod Cycles
pub mod Files
pub mod Draws
pub mod Nodes
pub mod Total
pub mod Accepted
pub mod Run
pub mod Placed
pub mod Extents
pub mod Lengths
pub mod Acl
