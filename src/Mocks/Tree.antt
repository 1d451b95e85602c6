-- ===== src/Mocks/Tree.antt =====
-- Directories of files, with no links: what `pathlib` and `shutil` do on the paths of the store.
pub mod Paths
use charles_mcp.Prelude.{
  ◌≡◌, refl, sym, ap, subst, ◌≢◌, Bool, true, false, Option, none, some, List, [], ◌∷◌, ◌==◌,
  eq_iff, eq_refl, arith, inl, inr, Option-cases, if◌then◌else◌,
}
use charles_mcp.Prelude.Text.{Text, text_eq}

mutual
  pub data Node : Type 0 where
    file : Text → Node
    dir : Tree → Node

  -- The entries of a directory, in the order in which they were made.
  pub data Tree : Type 0 where
    empty : Tree
    entry : Text → Node → Tree → Tree

unfoldable pub find_entry : Text → Tree → Option Node
find_entry name empty = none
find_entry name (entry key node entries) =
    let rest = find_entry name entries in if key == name then some node else rest

unfoldable pub set_entry : Text → Node → Tree → Tree
set_entry name node empty = entry name node empty
set_entry name node (entry key old entries) =
    let rest = set_entry name node entries in
    if key == name then entry key node entries else entry key old rest

unfoldable pub drop_entry : Text → Tree → Tree
drop_entry name empty = empty
drop_entry name (entry key node entries) =
    let rest = drop_entry name entries in if key == name then rest else entry key node rest

abbrev pub children : Option Node → Tree
children (some (dir entries)) = entries
children _ = empty

-- What stands at a path.
unfoldable pub at_path : List Text → Tree → Option Node
unfolding find_entry
at_path [] entries = some (dir entries)
at_path (name ∷ []) entries = find_entry name entries
at_path (name ∷ next ∷ names) entries = at_path (next ∷ names) (children (find_entry name entries))

abbrev pub placed : Text → Tree → Option Node → Option Tree → Option Tree
placed name entries (some (file content)) below = none
placed name entries found none = none
placed name entries found (some inner) = some (set_entry name (dir inner) entries)

abbrev pub replaced : Text → Text → Tree → Option Node → Option Tree
replaced name content entries (some (dir inner)) = none
replaced name content entries found = some (set_entry name (file content) entries)

-- `mkdir(parents=True)` and `os.replace` of a file: `none` is an `OSError`.
unfoldable pub put_file : List Text → Text → Tree → Option Tree
unfolding find_entry set_entry
put_file [] content entries = none
put_file (name ∷ []) content entries = replaced name content entries (find_entry name entries)
put_file (name ∷ next ∷ names) content entries =
    placed name entries (find_entry name entries)
      (put_file (next ∷ names) content (children (find_entry name entries)))

abbrev pub within_dir : Text → Tree → Option Node → Tree → Tree
within_dir name entries (some (dir inner)) changed = set_entry name (dir changed) entries
within_dir name entries found changed = entries

-- The disappearance of what stands at a path.
unfoldable pub erase_at : List Text → Tree → Tree
unfolding find_entry set_entry drop_entry
erase_at [] entries = entries
erase_at (name ∷ []) entries = drop_entry name entries
erase_at (name ∷ next ∷ names) entries =
    within_dir name entries (find_entry name entries)
      (erase_at (next ∷ names) (children (find_entry name entries)))

abbrev pub or_dropped : Text → Tree → Option Node → Tree → Tree
or_dropped name entries (some (dir inner)) empty = drop_entry name entries
or_dropped name entries found pruned = within_dir name entries found pruned

-- `_prune_empty_dirs` of a directory that is there: it goes if it is empty, then the one above it. One that
-- stays makes all above it stay.
unfoldable pub prune : List Text → Tree → Tree
unfolding find_entry set_entry drop_entry
prune [] entries = entries
prune (name ∷ names) entries =
    or_dropped name entries (find_entry name entries)
      (prune names (children (find_entry name entries)))

-- Pruning at a path below the directory `name`, which stays.
unfoldable pub prune_below : Text → List Text → Tree → Tree
unfolding prune find_entry set_entry
prune_below name path entries =
    within_dir name entries (find_entry name entries)
      (prune path (children (find_entry name entries)))
