-- ===== src/Mocks/Store/Writing.antt =====
-- A mock that was written is read back, what it replaces is archived, and a removed one is gone.
use charles_mcp.Prelude.Text.{Text}
