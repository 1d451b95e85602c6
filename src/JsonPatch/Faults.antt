-- ===== src/JsonPatch/Faults.antt =====
-- The exceptions of `get_pointer`: the two that its callers expect, and a third.
use charles_mcp.Prelude.{ℕ, ◌≡◌, true, false, none, [], ◌∷◌, ◌==◌, nat_eq}
use charles_mcp.Json.{Items, arr}
use charles_mcp.JsonPatch.Python.{Python, value_error}
use charles_mcp.Prelude.Outcome.{raise}
use charles_mcp.JsonPatch.Pointer.{is_digits}
use charles_mcp.JsonPatch.Lookup.{get_step, get_pointer}

module _ (py : Python) where
  -- A digit character that is no decimal digit, such as a superscript, makes `get_pointer` raise
  -- a plain `ValueError` on every list.
  pub get_pointer-value_error :
      (xs : Items) (c : ℕ)
      → (c == b'/') ≡ false
      → py.is_digit c ≡ true
      → py.int_of (c ∷ []) ≡ none
      → get_pointer py (arr xs) (b'/' ∷ c ∷ []) ≡ raise value_error
  unfolding get_pointer get_step is_digits
  get_pointer-value_error xs c plain digit bad = rw (plain, digit, bad)
