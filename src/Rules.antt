-- ===== src/Rules.antt =====
-- charles_mcp/mocks/rules.py and the names of charles_mcp/mocks/store.py: the mock rules.
pub mod Glob
pub mod Names
pub mod Path
pub mod Model
pub mod Match
pub mod Select
pub mod Disk
pub mod Store
pub mod Routes
