-- ===== src/Dispatcher.antt =====
-- charles_mcp/mocks/dispatcher.py: the HTTP dispatcher behind Charles Map Remote.
pub mod Framing
pub mod Headers
pub mod Bodies
pub mod Wire
pub mod Flow
