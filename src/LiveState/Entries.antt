-- ===== src/LiveState/Entries.antt =====
-- Entries of a session export: their fingerprints, their keys, and the warning about the server's
-- own exports.
use charles_mcp.Prelude.{
  ℕ, zero, suc, Bool, true, false, Option, none, some, List, [], ◌∷◌, ◌++◌, ◌==◌, nat_eq,
  if◌then◌else◌,
}
use charles_mcp.Prelude.Text.{Text, text_eq, codes}
use charles_mcp.Prelude.Number.{str_nat}
use charles_mcp.Prelude.Int.{ℤ, pos, ◌+ℤ◌}
use charles_mcp.Prelude.Dict.{Dict, lookup, insert}
use charles_mcp.LiveState.Errors.{Result, attribute_error}
use charles_mcp.Prelude.Outcome.{ok, raise, ◌>>=◌}
use charles_mcp.Json.{
  Value, null, bool, int, float, str, arr, obj, nil, cons, Fields, end, field, get_field,
}

-- Python's own functions: `hashlib.sha1(text).hexdigest()`, `str(value)` of what is no string, and
-- the truth of a float.
pub record Platform : Type 0 where
  pub sha1_hex : Text → Text
  pub str_of : Value → Text
  pub nonzero : Text → Bool

abbrev pub control_host : Text
control_host = codes "control.charles"

abbrev is_text : Text → Option Value → Bool
is_text t (some (str s)) = s == t
is_text t _ = false

-- `entry.get("host") == CONTROL_HOST`
abbrev pub is_control : Fields → Bool
is_control entry = is_text control_host (get_field (codes "host") entry)

abbrev as_int : Option Value → ℤ
as_int (some (int n)) = n
as_int (some (bool true)) = pos 1
as_int _ = pos 0

-- `counts.get(fingerprint, 0)`
abbrev pub count_of : Text → Dict Text ℕ → ℕ
count_of key counts = elim (lookup key counts) [ none ↦ 0 | some n ↦ n ]

-- `f"{fingerprint}:{n}"`
abbrev pub key_of : Text → ℕ → Text
key_of print n = print ++ b':' ∷ str_nat n

module _ (pf : Platform) where
  -- `bool(value)`
  unfoldable pub truthy : Value → Bool
  truthy null = false
  truthy (bool b) = b
  truthy (int (pos zero)) = false
  truthy (int n) = true
  truthy (float f) = pf.nonzero f
  truthy (str []) = false
  truthy (str (c ∷ cs)) = true
  truthy (arr nil) = false
  truthy (arr (cons v xs)) = true
  truthy (obj end) = false
  truthy (obj (field k v fs)) = true

  abbrev as_dict : Value → Result Fields
  as_dict (obj fs) = ok fs
  as_dict v = if truthy v then raise attribute_error else ok end

  -- `payload.get(key) or {}`, on which `.get` is called next.
  unfoldable pub section : Text → Fields → Result Fields
  unfolding truthy
  section key payload = elim (get_field key payload) [ none ↦ ok end | some v ↦ as_dict v ]

  abbrev text_of : Value → Text
  text_of (str s) = s
  text_of v = pf.str_of v

  -- `str(payload.get(key) or "")`
  unfoldable pub component : Text → Fields → Text
  unfolding truthy
  component key payload = elim (get_field key payload) [
    | none ↦ []
    | some v ↦ if truthy v then text_of v else []
  ]

  -- The bytes that one recorded export adds.
  body_size : Fields → Result ℤ
  unfolding section
  body_size entry = do
    response ← section (codes "response") entry
    sizes ← section (codes "sizes") response
    ok (as_int (get_field (codes "body") sizes))

  -- `count` and `body_bytes` of `self_recording_warning`.
  unfoldable pub own_exports : List Value → ℕ → ℤ → Result (ℕ × ℤ)
  unfolding body_size
  own_exports [] count body_bytes = ok (count, body_bytes)
  own_exports (obj entry ∷ raw) count body_bytes =
      let others = own_exports raw count body_bytes in
      let mine = (do n ← body_size entry; own_exports raw (suc count) (body_bytes +ℤ n)) in
      if is_control entry then mine else others
  own_exports (_ ∷ raw) count body_bytes = own_exports raw count body_bytes

  -- `"|".join(components)`
  abbrev join_bars : Text → List Text → Text
  join_bars first [] = first
  join_bars first (next ∷ rest) = first ++ b'|' ∷ join_bars next rest

  -- `_fingerprint_components`
  unfoldable pub fingerprint_components : Fields → Result Text
  unfolding section component
  fingerprint_components entry = do
    request ← section (codes "request") entry
    response ← section (codes "response") entry
    request_header ← section (codes "header") request
    response_header ← section (codes "header") response
    request_sizes ← section (codes "sizes") request
    response_sizes ← section (codes "sizes") response
    times ← section (codes "times") entry
    durations ← section (codes "durations") entry
    ok (
        join_bars (component (codes "host") entry) (
          component (codes "method") entry
          ∷ component (codes "path") entry
          ∷ component (codes "query") entry
          ∷ component (codes "status") entry
          ∷ component (codes "status") response
          ∷ component (codes "start") times
          ∷ component (codes "end") times
          ∷ component (codes "total") durations
          ∷ component (codes "totalSize") entry
          ∷ component (codes "mimeType") request
          ∷ component (codes "mimeType") response
          ∷ component (codes "body") request_sizes
          ∷ component (codes "body") response_sizes
          ∷ component (codes "firstLine") request_header
          ∷ component (codes "firstLine") response_header
          ∷ []))

  -- `_fingerprint`
  unfoldable pub fingerprint : Fields → Result Text
  unfolding fingerprint_components
  fingerprint entry = do payload ← fingerprint_components entry; ok (pf.sha1_hex payload)

  -- The loop of `_iter_unique_entries`.
  unfoldable pub iter_entries : Dict Text ℕ → List Value → Result (List (Text × Fields))
  unfolding fingerprint
  iter_entries counts [] = ok []
  iter_entries counts (obj entry ∷ raw) =
      let skipped = iter_entries counts raw in
      let kept = (do
        print ← fingerprint entry
        let n = suc (count_of print counts)
        rest ← iter_entries (insert print n counts) raw
        ok ((key_of print n, entry) ∷ rest)) in
      if is_control entry then skipped else kept
  iter_entries counts (_ ∷ raw) = iter_entries counts raw

  abbrev pub unique_entries : List Value → Result (List (Text × Fields))
  unique_entries raw = iter_entries [] raw
