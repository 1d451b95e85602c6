-- ===== src/LiveState/Errors.antt =====
-- The exceptions of the capture manager.
use charles_mcp.Prelude.Outcome.{Outcome}

-- The exceptions of the manager. `attribute_error` is Python's, for a section of an entry that is
-- no dict.
pub data LiveError : Type 0 where
  conflict : LiveError
  not_found : LiveError
  bad_limit : LiveError
  attribute_error : LiveError

abbrev pub Result {ℓ} : Type ℓ → Type ℓ
Result A = Outcome LiveError A
