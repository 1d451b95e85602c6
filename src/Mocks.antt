-- ===== src/Mocks.antt =====
-- charles_mcp/mocks/store.py and scenarios.py: stored bodies per host and path, and sets of rules.
pub mod Tree
pub mod Store
pub mod Scenarios
