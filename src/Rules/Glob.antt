-- ===== src/Rules/Glob.antt =====
-- Patterns in which `*` stands for a run of characters: `fnmatch.fnmatchcase` of a host, where it
-- stands for any, and the regular expression of a path segment, `[^/]*` for each `*`.
use charles_mcp.Prelude.{
  ℕ, Bool, true, false, ◌&&◌, ◌||◌, not, [], ◌∷◌, ◌==◌, nat_eq, if◌then◌else◌,
}
use charles_mcp.Prelude.Text.{Text, text_eq}

-- The rest of the pattern, after a run of the characters that `*` may stand for.
skip : (ℕ → Bool) → (Text → Bool) → Text → Bool
skip allowed next [] = next []
skip allowed next (c ∷ cs) = next (c ∷ cs) || (allowed c && skip allowed next cs)

abbrev literal : ℕ → (Text → Bool) → Text → Bool
literal p next [] = false
literal p next (c ∷ cs) = p == c && next cs

unfoldable pub glob : (ℕ → Bool) → Text → Text → Bool
unfolding skip
glob allowed [] [] = true
glob allowed [] (c ∷ cs) = false
glob allowed (p ∷ ps) text =
    if p == b'*' then skip allowed (glob allowed ps) text else literal p (glob allowed ps) text

-- `fnmatch.fnmatchcase(text, pattern)` of a pattern with no `?` and no `[`.
unfoldable pub fnmatch : Text → Text → Bool
unfolding glob
fnmatch pattern text = glob (λ _. true) pattern text

-- `re.fullmatch(re.escape(expected).replace(r"\*", "[^/]*"), actual)`
unfoldable pub segment_matches : Text → Text → Bool
unfolding glob
segment_matches expected actual = glob (λ c. not (c == b'/')) expected actual
