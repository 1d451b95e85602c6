-- ===== src/Traffic.antt =====
-- Queries over recorded and live traffic: charles_mcp/services/traffic_*.py, the analyzers of
-- charles_mcp/analyzers and the schemas they fill.
pub mod Schema
pub mod Raw
pub mod Classify
pub mod Headers
pub mod Body
pub mod Normalize
pub mod Match
pub mod Cache
pub mod Prepare
pub mod Query
pub mod Grouping
