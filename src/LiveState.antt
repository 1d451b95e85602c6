-- ===== src/LiveState.antt =====
-- charles_mcp/live_state.py, the capture that the live tools poll, and the service over it in
-- charles_mcp/services/live_capture.py.
pub mod Errors
pub mod Entries
pub mod Manager
pub mod Client
pub mod Service
