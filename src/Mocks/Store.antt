-- ===== src/Mocks/Store.antt =====
-- `MockStore`. The root of the store is the tree of its hosts, with the tree below `_archive` beside
-- it. No link leads out of it, so a path of checked segments does not escape.
pub mod Writing
use charles_mcp.Prelude.{
  ℕ, Bool, true, false, not, Option, none, some, List, [], ◌∷◌, ◌++◌, map, filter, any, ◌==◌,
  nat_eq, if◌then◌else◌,
}
use charles_mcp.Prelude.Text.{Text, codes, text_eq}
use charles_mcp.Prelude.Strings.{join, starts_with, CaseTables}
use charles_mcp.Prelude.Order.{Ordering, compare_text, then_by}
use charles_mcp.Prelude.Sort.{sort}
use charles_mcp.Prelude.Outcome.{Outcome, ok, raise, ◌>>=◌, ◌>>◌, or_raise}
use charles_mcp.Rules.Names.{Problem, Checked, normalize_host}
use charles_mcp.Rules.Path.{split_request_path}
use charles_mcp.Mocks.Tree.{
  Node, file, dir, Tree, empty, entry, find_entry, at_path, put_file, erase_at, prune_below,
}

pub record MockLocation : Type 0 where
  pub host : Text
  pub segments : List Text
  pub query_ignored : Option Text

-- `MockPathError`, the two causes of a `MockPathConflictError`, `FileNotFoundError`, other `OSError`s.
pub data MockFault : Type 0 where
  bad_path : Problem → MockFault
  already_directory : MockFault
  blocked : List Text → MockFault
  no_mock : MockFault
  os_fault : MockFault

pub record MockRoot : Type 0 where
  pub hosts : Tree
  pub archive : Tree

-- A `MockRecord` without what the file system adds: the file, its size and its time.
pub record MockRecord : Type 0 where
  pub host : Text
  pub path : Text

abbrev pub checked_name {ℓ} : {A : Type ℓ} → Checked A → Outcome MockFault A
checked_name (ok a) = ok a
checked_name (raise p) = raise (bad_path p)

abbrev pub place_of : MockLocation → List Text
place_of location = location.host ∷ location.segments

abbrev pub record_of : MockLocation → MockRecord
record_of location = record { host = location.host; path = b'/' ∷ join b'/' location.segments }

-- The name of the last segment, with `@` and the stamp.
unfoldable pub stamped : Text → List Text → List Text
stamped stamp [] = []
stamped stamp (name ∷ []) = (name ++ b'@' ∷ stamp) ∷ []
stamped stamp (name ∷ next ∷ names) = name ∷ stamped stamp (next ∷ names)

-- The file on the way to the location, if there is one.
unfoldable pub blocking : List Text → Tree → Option (List Text)
unfolding find_entry
blocking [] entries = none
blocking (name ∷ []) entries = none
blocking (name ∷ next ∷ names) entries = elim (find_entry name entries) [
  | none ↦ none
  | some (file content) ↦ some (name ∷ [])
  | some (dir inner) ↦ elim (blocking (next ∷ names) inner) [
    | none ↦ none
    | some front ↦ some (name ∷ front)
  ]
]

abbrev host_entries : Option Node → Tree
host_entries (some (dir entries)) = entries
host_entries _ = empty

abbrev pub conflict : Option Node → Option (List Text) → Outcome MockFault (Unit {0})
conflict (some (dir entries)) above = raise already_directory
conflict found (some front) = raise (blocked front)
conflict found none = ok tt

-- `_check_conflicts`
unfoldable pub check_conflicts : MockLocation → Tree → Outcome MockFault (Unit {0})
unfolding at_path blocking
check_conflicts location hosts =
    conflict (at_path (place_of location) hosts)
      (blocking location.segments (host_entries (find_entry location.host hosts)))

abbrev pub file_content : Option Node → Option Text
file_content (some (file content)) = some content
file_content _ = none

-- `_archive`: the destination and the root without the file.
unfoldable pub archive_mock :
    List Text → Text → Text → MockRoot → Outcome MockFault (MockRoot × Option (List Text))
unfolding stamped put_file erase_at
archive_mock place content stamp root = do
  kept ← or_raise os_fault (put_file (stamped stamp place) content root.archive)
  ok (record { hosts = erase_at place root.hosts; archive = kept }, some (stamped stamp place))

abbrev pub archive_previous :
    List Text → Text → MockRoot → Option Text → Outcome MockFault (MockRoot × Option (List Text))
archive_previous place stamp root none = ok (root, none)
archive_previous place stamp root (some content) = archive_mock place content stamp root

module _ (tables : CaseTables) where
  unfoldable pub locate : Text → Text → Outcome MockFault MockLocation
  locate host path = do
    normalized ← checked_name (normalize_host tables host)
    (segments, query) ← checked_name (split_request_path path)
    ok (record { host = normalized; segments = segments; query_ignored = query })

  -- The root afterwards, with the record and the archived version.
  unfoldable pub write_mock :
      Text
      → Text
      → Text
      → Text
      → MockRoot
      → Outcome MockFault (MockRoot × MockRecord × Option (List Text))
  unfolding locate check_conflicts archive_mock
  write_mock host path content stamp root = do
    location ← locate host path
    check_conflicts location root.hosts
    (moved, archived) ←
        archive_previous (place_of location) stamp root
          (file_content (at_path (place_of location) root.hosts))
    hosts ← or_raise os_fault (put_file (place_of location) content moved.hosts)
    ok (record moved { hosts = hosts }, record_of location, archived)

  unfoldable pub read_mock : Text → Text → MockRoot → Outcome MockFault (MockRecord × Text)
  unfolding locate at_path
  read_mock host path root = do
    location ← locate host path
    content ← or_raise no_mock (file_content (at_path (place_of location) root.hosts))
    ok (record_of location, content)

  -- The directories above the file, below the host's.
  abbrev pub parents : List Text → List Text
  parents [] = []
  parents (name ∷ []) = []
  parents (name ∷ next ∷ names) = name ∷ parents (next ∷ names)

  -- `remove`, with the destination in the archive.
  unfoldable pub remove_mock :
      Text → Text → Text → MockRoot → Outcome MockFault (MockRoot × Option (List Text))
  unfolding locate at_path archive_mock prune_below
  remove_mock host path stamp root = do
    location ← locate host path
    content ← or_raise no_mock (file_content (at_path (place_of location) root.hosts))
    (moved, archived) ← archive_mock (place_of location) content stamp root
    ok (
      record moved { hosts = prune_below location.host (parents location.segments) moved.hosts },
      archived,
    )

-- `file.relative_to(host_dir).parts` of every file below a directory.
unfoldable mutual
  pub files_below : Tree → List (List Text)
  files_below empty = []
  files_below (entry name node entries) = node_paths name node ++ files_below entries

  pub node_paths : Text → Node → List (List Text)
  node_paths name (file content) = (name ∷ []) ∷ []
  node_paths name (dir entries) = map (λ parts. name ∷ parts) (files_below entries)

unfoldable pub compare_parts : List Text → List Text → Ordering
unfolding compare_text
compare_parts [] [] = Ordering.eq
compare_parts [] (q ∷ qs) = Ordering.lt
compare_parts (p ∷ ps) [] = Ordering.gt
compare_parts (p ∷ ps) (q ∷ qs) = then_by (compare_text p q) (compare_parts ps qs)

abbrev is_hidden : Text → Bool
is_hidden part = starts_with (codes ".") part

-- The records of one host directory.
unfoldable pub host_mocks : Tree → Text → List MockRecord
unfolding find_entry files_below compare_parts sort starts_with join
host_mocks hosts host =
    map (λ parts. record { host = host; path = b'/' ∷ join b'/' parts })
      (filter (λ parts. not (any is_hidden parts))
        (sort compare_parts (files_below (host_entries (find_entry host hosts)))))

abbrev directories : Tree → List Text
directories empty = []
directories (entry name (file content) entries) = directories entries
directories (entry name (dir inner) entries) =
    let rest = directories entries in if is_hidden name then rest else name ∷ rest

abbrev concat_mocks : Tree → List Text → List MockRecord
concat_mocks hosts [] = []
concat_mocks hosts (host ∷ names) = host_mocks hosts host ++ concat_mocks hosts names

-- `list_mocks`; all hosts without a host.
unfoldable pub list_mocks :
    CaseTables → Option Text → MockRoot → Outcome MockFault (List MockRecord)
unfolding host_mocks normalize_host
list_mocks tables none root =
    ok (concat_mocks root.hosts (sort compare_text (directories root.hosts)))
list_mocks tables (some host) root = do
  normalized ← checked_name (normalize_host tables host)
  ok (host_mocks root.hosts normalized)
