-- ===== src/Tests/Mocks.antt =====
-- charles_mcp/mocks/store.py and scenarios.py: a mock that is written, written again and removed, and
-- a scenario.
use charles_mcp.Prelude.{◌≡◌, refl, none, some, [], ◌∷◌}
use charles_mcp.Prelude.Text.{Text, codes, text_eq}
use charles_mcp.Mocks.Tree.{Tree, empty, entry, file, dir, at_path}
use charles_mcp.Mocks.Store.{MockLocation, MockRoot, MockRecord, place_of}

abbrev items : MockRecord
items = record { host = codes "a.b"; path = codes "/v/i" }

abbrev with_items : Text → Tree
with_items content =
    entry (codes "a.b")
      (dir (entry (codes "v") (dir (entry (codes "i") (file content) empty)) empty)) empty

abbrev no_mocks : MockRoot
no_mocks = record { hosts = empty; archive = empty }

abbrev one_mock : MockRoot
one_mock = record { hosts = with_items (codes "x"); archive = empty }

abbrev items_location : MockLocation
items_location = record {
  host = codes "a.b";
  segments = codes "v" ∷ codes "i" ∷ [];
  query_ignored = none;
}

there : at_path (place_of items_location) one_mock.hosts ≡ some (file (codes "x"))
unfolding at_path text_eq
there = refl
