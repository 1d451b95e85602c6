-- ===== src/Rules/Names.antt =====
-- Host names: `normalize_host`, `normalize_host_pattern` and `host_matches`.
use charles_mcp.Prelude.{
  ℕ, Bool, false, ◌&&◌, ◌||◌, not, [], ◌∷◌, all, length, leb, contains, ◌==◌, nat_eq, if◌then◌else◌,
}
use charles_mcp.Prelude.Text.{Text, codes, text_eq}
use charles_mcp.Prelude.Strings.{split, strip, rstrip, starts_with, ends_with, drop_end, CaseTables}
use charles_mcp.Prelude.Outcome.{Outcome, ok, raise}
use charles_mcp.Rules.Glob.{fnmatch}

-- The reasons for a `MockPathError`, and for the plain `ValueError`s of the validators.
pub data Problem : Type 0 where
  host_with_scheme : Problem
  host_with_port : Problem
  bad_host : Problem
  pattern_with_scheme : Problem
  bad_host_pattern : Problem
  no_leading_slash : Problem
  trailing_slash : Problem
  empty_segment : Problem
  dot_segment : Problem
  forbidden_character : Problem
  query_in_path : Problem
  double_star : Problem
  bad_rule_id : Problem
  bad_match_pointer : Problem
  refused_header : Problem
  bad_patch : Problem
  bad_status : Problem
  bad_delay : Problem
  bad_port : Problem

abbrev pub Checked {ℓ} : Type ℓ → Type ℓ
Checked A = Outcome Problem A

abbrev pub is_alnum : ℕ → Bool
is_alnum c = (leb b'a' c && leb c b'z') || (leb b'0' c && leb c b'9')

abbrev pub ends_in : (ℕ → Bool) → Text → Bool
ends_in member [] = false
ends_in member (c ∷ []) = member c
ends_in member (c ∷ d ∷ cs) = ends_in member (d ∷ cs)

abbrev begins_in : (ℕ → Bool) → Text → Bool
begins_in member [] = false
begins_in member (c ∷ cs) = member c

-- `[x](?:[x-]{0,61}[x])?` for a set `x` of characters.
unfoldable pub is_label : (ℕ → Bool) → Text → Bool
is_label member label =
    begins_in member label
    && ends_in member label
    && all (λ c. member c || c == b'-') label
    && leb (length label) 63

-- `^label(?:\.label)*$`: `$` also matches before a final newline.
abbrev pub is_host_name : (ℕ → Bool) → Text → Bool
is_host_name member value = all (is_label member) (split b'.' value)

unfoldable pub host_re : (ℕ → Bool) → Text → Bool
unfolding is_label split ends_with
host_re member value =
    is_host_name member value
    || (ends_with (10 ∷ []) value && is_host_name member (drop_end 1 value))

abbrev pub or_star : ℕ → Bool
or_star c = is_alnum c || c == b'*'

abbrev has_scheme : Text → Bool
has_scheme value = starts_with (codes "http://") value || starts_with (codes "https://") value

unfoldable pub is_host_pattern : Text → Bool
is_host_pattern value = contains value b'*'

unfoldable pub host_matches : Text → Text → Bool
unfolding is_host_pattern fnmatch
host_matches pattern host = pattern == host || (is_host_pattern pattern && fnmatch pattern host)

module _ (tables : CaseTables) where
  -- `(host or "").strip().lower().rstrip(".")`
  unfoldable pub tidy_host : Text → Text
  unfolding strip rstrip
  tidy_host host = rstrip (λ c. c == b'.') (tables.lower (strip host))

  unfoldable pub normalize_host : Text → Checked Text
  normalize_host host =
      let value = tidy_host host in
      if has_scheme value
      then raise host_with_scheme
      else if contains value b':'
      then raise host_with_port
      else if host_re is_alnum value
      then ok value
      else raise bad_host

  unfoldable pub normalize_host_pattern : Text → Checked Text
  normalize_host_pattern host =
      let value = tidy_host host in
      if not (is_host_pattern value)
      then normalize_host value
      else if has_scheme value || contains value b':'
      then raise pattern_with_scheme
      else if not (value == codes "*") && not (host_re or_star value)
      then raise bad_host_pattern
      else ok value
