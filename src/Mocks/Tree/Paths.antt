-- ===== src/Mocks/Tree/Paths.antt =====
-- What stands at a path after a write, an erasure and a pruning.
use charles_mcp.Prelude.{
  ◌≡◌, refl, subst, Option, none, some, List, [], ◌∷◌, ◌==◌, eq_iff, eq_refl, arith, if◌then◌else◌,
}
use charles_mcp.Prelude.Text.{Text, text_eq}
use charles_mcp.Mocks.Tree.{
  Node, file, dir, Tree, empty, entry, find_entry, set_entry, children, at_path, placed, replaced,
  put_file,
}

some_injective {ℓ} : {A : Type ℓ} {a b : A} → some a ≡ some b → a ≡ b
some_injective p = cc

find_entry-set_entry :
    (name other : Text) (node : Node) (entries : Tree)
    → find_entry other (set_entry name node entries)
      ≡ (if name == other then some node else find_entry other entries)
unfolding find_entry set_entry
find_entry-set_entry name other node empty = refl
find_entry-set_entry name other node (entry key old entries) = ground (
  arith,
  find_entry-set_entry name other node entries,
  eq_iff key name,
  eq_iff key other,
  eq_iff name other,
)

-- The file that was written stands at its path.
pub at_path-put_file :
    (path : List Text) (content : Text) (entries changed : Tree)
    → put_file path content entries ≡ some changed
    → at_path path changed ≡ some (file content)
unfolding put_file at_path
at_path-put_file [] content entries changed h = absurd (cc)
at_path-put_file (name ∷ []) content entries changed h = by_found (find_entry name entries) h
  where
    set_here :
        some (set_entry name (file content) entries) ≡ some changed
        → find_entry name changed ≡ some (file content)
    set_here k =
        subst (λ t. find_entry name t ≡ some (file content)) (some_injective k)
          (rw (find_entry-set_entry name name (file content) entries, eq_refl name))

    by_found :
        (found : Option Node)
        → replaced name content entries found ≡ some changed
        → find_entry name changed ≡ some (file content)
    by_found none k = set_here k
    by_found (some (file c)) k = set_here k
    by_found (some (dir inner)) k = absurd (cc)
at_path-put_file (name ∷ next ∷ names) content entries changed h =
    by_below (find_entry name entries)
      (put_file (next ∷ names) content (children (find_entry name entries))) refl h
      (at_path-put_file (next ∷ names) content (children (find_entry name entries)))
  where
    set_here :
        (inner : Tree)
        (whole : (t : Tree)
          → put_file (next ∷ names) content (children (find_entry name entries)) ≡ some t
          → at_path (next ∷ names) t ≡ some (file content))
        → put_file (next ∷ names) content (children (find_entry name entries)) ≡ some inner
        → some (set_entry name (dir inner) entries) ≡ some changed
        → at_path (next ∷ names) (children (find_entry name changed)) ≡ some (file content)
    set_here inner whole e k =
        subst (λ t. at_path (next ∷ names) (children (find_entry name t)) ≡ some (file content))
          (some_injective k)
          (rw (find_entry-set_entry name name (dir inner) entries, eq_refl name) (whole inner e))

    by_below :
        (found : Option Node) (below : Option Tree)
        → put_file (next ∷ names) content (children (find_entry name entries)) ≡ below
        → placed name entries found below ≡ some changed
        → ((t : Tree)
            → put_file (next ∷ names) content (children (find_entry name entries)) ≡ some t
            → at_path (next ∷ names) t ≡ some (file content))
        → at_path (next ∷ names) (children (find_entry name changed)) ≡ some (file content)
    by_below (some (file c)) below e k whole = absurd (cc)
    by_below none none e k whole = absurd (cc)
    by_below (some (dir d)) none e k whole = absurd (cc)
    by_below none (some inner) e k whole = set_here inner whole e k
    by_below (some (dir d)) (some inner) e k whole = set_here inner whole e k
