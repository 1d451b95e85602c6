-- ===== src/JsonPatch.antt =====
-- charles_mcp/mocks/json_patch.py: JSON edits addressed by RFC 6901 pointers.
pub mod Python
pub mod Pointer
pub mod Lookup
pub mod Edit
pub mod SetGet
pub mod Frame
pub mod Faults
mod Raises
pub mod Checks
pub mod Warnings
pub mod Style
pub mod Dump
