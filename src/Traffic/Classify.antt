-- ===== src/Traffic/Classify.antt =====
-- charles_mcp/analyzers/resource_classifier.py. `os.path.splitext` is that of POSIX.
use charles_mcp.Prelude.{
  ℕ, ◌+◌, Bool, false, ◌||◌, Option, some, List, [], ◌∷◌, ◌++◌, any, contains, leb, ◌==◌, nat_eq,
  if◌then◌else◌,
}
use charles_mcp.Prelude.Text.{Text, text_eq, codes}
use charles_mcp.Prelude.Strings.{CaseTables, split, lstrip, occurs, starts_with}
use charles_mcp.Prelude.Outcome.{ok, ◌>>=◌}
use charles_mcp.Json.{Value, Fields, get_field, int}
use charles_mcp.Prelude.Int.{pos}
use charles_mcp.LiveState.Entries.{Platform, component}
use charles_mcp.Traffic.Raw.{Result, part}
use charles_mcp.Traffic.Schema.{
  ResourceClass, ResourceClassification, api_candidate, document, script, static_asset, media, font,
  connect_tunnel, control, unknown, class_eq,
}

-- The last piece of a path, after its last slash.
abbrev last_of : List Text → Text
last_of [] = []
last_of (piece ∷ []) = piece
last_of (piece ∷ next ∷ pieces) = last_of (next ∷ pieces)

-- From the last dot on, nothing without one.
unfoldable from_last_dot : Text → Text
from_last_dot [] = []
from_last_dot (c ∷ cs) = elim (from_last_dot cs) [
  | [] ↦ if c == b'.' then c ∷ cs else []
  | d ∷ ds ↦ d ∷ ds
]

-- `os.path.splitext(path)[1]`: leading dots of a name start no extension.
unfoldable pub extension_of : Text → Text
unfolding split lstrip from_last_dot
extension_of path = from_last_dot (lstrip (λ c. c == b'.') (last_of (split b'/' path)))

abbrev static_extensions : List Text
static_extensions =
    codes ".png"
    ∷ codes ".jpg"
    ∷ codes ".jpeg"
    ∷ codes ".gif"
    ∷ codes ".webp"
    ∷ codes ".svg"
    ∷ codes ".ico"
    ∷ codes ".css"
    ∷ codes ".map"
    ∷ []

abbrev font_extensions : List Text
font_extensions = codes ".woff" ∷ codes ".woff2" ∷ codes ".ttf" ∷ codes ".eot" ∷ codes ".otf" ∷ []

abbrev media_extensions : List Text
media_extensions =
    codes ".mp3"
    ∷ codes ".mp4"
    ∷ codes ".wav"
    ∷ codes ".webm"
    ∷ codes ".mov"
    ∷ codes ".avi"
    ∷ codes ".m4a"
    ∷ []

abbrev script_extensions : List Text
script_extensions = codes ".js" ∷ codes ".mjs" ∷ []

abbrev api_hints : List Text
api_hints =
    codes "/api/"
    ∷ codes "/graphql"
    ∷ codes "/rpc"
    ∷ codes "/auth"
    ∷ codes "/login"
    ∷ codes "/token"
    ∷ codes "/session"
    ∷ []

abbrev mutating_methods : List Text
mutating_methods = codes "POST" ∷ codes "PUT" ∷ codes "PATCH" ∷ codes "DELETE" ∷ []

-- `isinstance(status, int) and status >= 400`
abbrev is_failure : Option Value → Bool
is_failure (some (int (pos n))) = leb 400 n
is_failure _ = false

abbrev flat : ResourceClass → ℕ → ResourceClassification
flat c score = record { resource_class = c; priority_score = score; priority_reasons = [] }

-- What `classify_entry` takes from an entry.
pub record Signals : Type 0 where
  pub host : Text
  pub method : Text
  pub lower_path : Text
  pub response_mime : Text
  pub request_mime : Text
  pub status : Option Value

-- A score and its reasons: one more signal.
abbrev add_signal : Bool → ℕ → Text → ℕ × List Text → ℕ × List Text
add_signal hit points reason (score, reasons) =
    if hit then (score + points, (reasons ++ reason ∷ [])) else (score, reasons)

-- The scoring at the end of `classify_entry`.
unfoldable pub score_signals : Signals → ℕ × List Text
unfolding occurs
score_signals s = add_signal (is_failure s.status) 20 (codes "error_status") (
    add_signal (contains mutating_methods s.method) 15 (codes "mutating_method") (
      add_signal (any (λ hint. occurs hint s.lower_path) api_hints) 25 (codes "api_path_hint") (
        add_signal
          (occurs (codes "application/json") s.response_mime
            || occurs (codes "application/json") s.request_mime)
          40 (codes "json_content_type") (20, []))))

abbrev by_reasons : ℕ × List Text → ResourceClassification
by_reasons (score, []) = flat unknown 20
by_reasons (score, reason ∷ reasons) = record {
  resource_class = api_candidate;
  priority_score = score;
  priority_reasons = reason ∷ reasons;
}

-- The decisions of `classify_entry`, in order.
unfoldable pub classify_signals : Signals → ResourceClassification
unfolding extension_of starts_with occurs score_signals
classify_signals s =
    let extension = extension_of s.lower_path in
    if s.host == codes "control.charles"
    then flat control 0
    else if s.method == codes "CONNECT"
    then flat connect_tunnel 0
    else if starts_with (codes "image/") s.response_mime || contains static_extensions extension
    then flat static_asset 5
    else if starts_with (codes "font/") s.response_mime || contains font_extensions extension
    then flat font 5
    else if starts_with (codes "audio/") s.response_mime
        || starts_with (codes "video/") s.response_mime
        || contains media_extensions extension
    then flat media 5
    else if occurs (codes "text/html") s.response_mime
    then flat document 40
    else if occurs (codes "javascript") s.response_mime
        || occurs (codes "ecmascript") s.response_mime
        || contains script_extensions extension
    then flat script 35
    else by_reasons (score_signals s)

module _ (pf : Platform) (ct : CaseTables) where
  signals : Fields → Result Signals
  unfolding part component
  signals entry = do
    response ← part pf (codes "response") entry
    request ← part pf (codes "request") entry
    ok (record {
      host = ct.lower (component pf (codes "host") entry);
      method = ct.upper (component pf (codes "method") entry);
      lower_path = ct.lower (component pf (codes "path") entry);
      response_mime = ct.lower (component pf (codes "mimeType") response);
      request_mime = ct.lower (component pf (codes "mimeType") request);
      status = get_field (codes "status") response;
    })

  -- `classify_entry`
  unfoldable pub classify_entry : Fields → Result ResourceClassification
  unfolding signals
  classify_entry entry = do s ← signals entry; ok (classify_signals s)
