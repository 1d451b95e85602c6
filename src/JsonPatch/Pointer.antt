-- ===== src/JsonPatch/Pointer.antt =====
-- Pointers and the addressing tokens: `parse_pointer`, `_SELECTOR`, `pointers_may_alias`.
pub mod Roundtrip
pub mod Alias
use charles_mcp.Prelude.{
  ℕ, zero, suc, ◌+◌, Bool, true, false, ◌&&◌, ◌||◌, not, Option, none, some, List, [], ◌∷◌, map,
  all, length, ◌==◌, nat_eq, if◌then◌else◌,
}
use charles_mcp.Prelude.Text.{Text, text_eq}
use charles_mcp.Prelude.Strings.{split}
use charles_mcp.JsonPatch.Python.{Python, Result, patch_error, bad_pointer}
use charles_mcp.Prelude.Outcome.{ok, raise, ◌>>=◌}

-- `text.replace(ab, c)` for two characters `a`, `b`.
unfoldable pub replace_pair : ℕ → ℕ → ℕ → Text → Text
replace_pair a b c [] = []
replace_pair a b c (x ∷ []) = x ∷ []
replace_pair a b c (x ∷ y ∷ cs) =
    let hit = replace_pair a b c cs in
    let miss = replace_pair a b c (y ∷ cs) in if x == a && y == b then c ∷ hit else x ∷ miss

unfoldable pub unescape : Text → Text
unfolding replace_pair
unescape token = replace_pair b'~' b'0' b'~' (replace_pair b'~' b'1' b'/' token)

unfoldable pub parse_pointer : Text → Result (List Text)
unfolding split unescape
parse_pointer [] = ok []
parse_pointer (c ∷ cs) =
    if c == b'/' then ok (map unescape (split b'/' cs)) else raise (patch_error bad_pointer)

-- The text up to its last character, and that character.
abbrev unsnoc : Text → Option (Text × ℕ)
unsnoc [] = none
unsnoc (c ∷ cs) = elim (unsnoc cs) [ none ↦ some ([], c) | some (front, l) ↦ some (c ∷ front, l) ]

-- `[^=\[\]]+` and what follows it.
selector_field : Text → Text × Text
selector_field [] = ([], [])
selector_field (c ∷ cs) =
    let (name, rest) = selector_field cs in
    if c == b'=' || c == b'[' || c == b']' then ([], c ∷ cs) else (c ∷ name, rest)

-- `(.*)\]$`: one newline may follow the bracket, and `.` matches none.
abbrev closed : Text → Option Text
closed text = elim (unsnoc text) [
  | none ↦ none
  | some (front, l) ↦ if l == b']' && all (λ c. not (c == 10)) front then some front else none
]

abbrev selector_value : Text → Option Text
selector_value text = elim (unsnoc text) [
  | none ↦ none
  | some (front, l) ↦ if l == 10 then closed front else closed text
]

abbrev after_name : Text → Text → Option (Text × Text)
after_name [] rest = none
after_name (n ∷ ns) [] = none
after_name (n ∷ ns) (c ∷ rest) =
    if c == b'='
    then elim (selector_value rest) [ none ↦ none | some v ↦ some (n ∷ ns, v) ]
    else none

-- `_SELECTOR.match(token)` with its two groups.
unfoldable pub selector : Text → Option (Text × Text)
unfolding selector_field
selector [] = none
selector (c ∷ cs) =
    if c == b'[' then (let (name, rest) = selector_field cs in after_name name rest) else none

unfoldable pub is_selector : Text → Bool
unfolding selector
is_selector token = elim (selector token) [ none ↦ false | some _ ↦ true ]

abbrev pub nonempty : Text → Bool
nonempty [] = false
nonempty (c ∷ cs) = true

module _ (py : Python) where
  -- `token.isdigit()`
  unfoldable pub is_digits : Text → Bool
  is_digits token = nonempty token && all py.is_digit token

  unfoldable pub addresses_array : Text → Bool
  unfolding is_digits is_selector
  addresses_array token = token == b'-' ∷ [] || is_digits token || is_selector token

  -- The loop over the zipped tokens, with `saw_array_divergence`.
  alias_loop : Bool → List Text → List Text → Bool
  alias_loop saw [] ys = saw
  alias_loop saw (x ∷ xs) [] = saw
  alias_loop saw (x ∷ xs) (y ∷ ys) =
      let same = alias_loop saw xs ys in
      let other = alias_loop true xs ys in
      if x == y then same else if addresses_array x && addresses_array y then other else false

  pub tokens_may_alias : List Text → List Text → Bool
  unfolding alias_loop
  tokens_may_alias [] tb = false
  tokens_may_alias (x ∷ xs) tb =
      if length (x ∷ xs) == length tb then alias_loop false (x ∷ xs) tb else false

  unfoldable pub pointers_may_alias : Text → Text → Result Bool
  unfolding tokens_may_alias parse_pointer
  pointers_may_alias a b =
      if a == b
      then ok true
      else do ta ← parse_pointer a; tb ← parse_pointer b; ok (tokens_may_alias ta tb)
