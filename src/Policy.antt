-- ===== src/Policy.antt =====
-- crates/central/src/policy.rs: the group policies, their merge, and the decisions taken on the
-- merged policy. `HashSet<String>` is a list that is only asked whether it contains a text.
pub mod Merge
pub mod Store
pub mod Mcp
