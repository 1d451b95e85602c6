-- ===== src/Rules/Disk.antt =====
-- The directory of a `RuleStore`: the entries of `_rules`, and what lies under `_archive/_rules`.
use charles_mcp.Prelude.{ℕ, Option, none, some, List, [], nat_eq}
use charles_mcp.Prelude.Text.{Text, text_eq}
use charles_mcp.Prelude.Dict.{Dict, lookup, insert, erase}
use charles_mcp.Prelude.Outcome.{Outcome, ok, raise}
use charles_mcp.Rules.Names.{Problem}

abbrev pub Bytes : Type 0
Bytes = List ℕ

-- The files of one directory, by name. Directories below a rule directory are left out.
abbrev pub Files : Type 0
Files = Dict Text Bytes

pub data Node : Type 0 where
  file : Bytes → Node
  dir : Files → Node

-- `archive` has a key `<directory>/<stamp>` for each directory below `_archive/_rules`.
pub record Disk : Type 0 where
  pub root : Dict Text Node
  pub archive : Dict Text Files

-- `ValueError` of a name, `FileNotFoundError`, the `ValidationError` of a file, other `OSError`s.
pub data StoreFault : Type 0 where
  bad_name : Problem → StoreFault
  not_found : StoreFault
  invalid_file : StoreFault
  os_error : StoreFault

abbrev pub Stored {ℓ} : Type ℓ → Type ℓ
Stored A = Outcome StoreFault A

abbrev pub named {ℓ} : {A : Type ℓ} → Outcome Problem A → Stored A
named (ok a) = ok a
named (raise p) = raise (bad_name p)

-- The files of a directory; a file in its place, and a directory that is not there, have none.
abbrev pub node_files : Option Node → Files
node_files none = []
node_files (some (file _)) = []
node_files (some (dir fs)) = fs

unfoldable pub files_of : Text → Disk → Files
unfolding lookup
files_of name disk = node_files (lookup name disk.root)

-- The bytes of `<directory>/<name>`, if it is a file.
unfoldable pub read_file : Text → Text → Disk → Option Bytes
unfolding files_of lookup
read_file directory name disk = lookup name (files_of directory disk)

abbrev pub written : Text → Text → Bytes → Disk → Option Node → Stored Disk
written directory name content disk (some (file _)) = raise os_error
written directory name content disk found = ok (record disk {
  root = insert directory (dir (insert name content (node_files found))) disk.root;
})

-- `_atomic_write` below a directory, which `mkdir` makes if it is not there.
unfoldable pub write_file : Text → Text → Bytes → Disk → Stored Disk
unfolding lookup insert
write_file directory name content disk =
    written directory name content disk (lookup directory disk.root)

abbrev pub erased : Text → Text → Disk → Option Node → Disk
erased directory name disk (some (dir fs)) = record disk {
  root = insert directory (dir (erase name fs)) disk.root;
}
erased directory name disk found = disk

-- The file's disappearance from its directory.
unfoldable pub erase_file : Text → Text → Disk → Disk
unfolding lookup insert erase
erase_file directory name disk = erased directory name disk (lookup directory disk.root)

abbrev pub archived_files : Text → Disk → Files
archived_files place disk = elim (lookup place disk.archive) [ none ↦ [] | some fs ↦ fs ]

-- A copy of the content in the archive.
unfoldable pub keep_copy : Text → Text → Bytes → Disk → Disk
keep_copy place name content disk = record disk {
  archive = insert place (insert name content (archived_files place disk)) disk.archive;
}

-- `if file.exists(): shutil.copy2(file, ...)` and `shutil.move`.
unfoldable pub copy_to_archive : Text → Text → Text → Disk → Disk
copy_to_archive place directory name disk = elim (read_file directory name disk) [
  | none ↦ disk
  | some content ↦ keep_copy place name content disk
]

unfoldable pub move_to_archive : Text → Text → Text → Disk → Disk
move_to_archive place directory name disk = elim (read_file directory name disk) [
  | none ↦ disk
  | some content ↦ erase_file directory name (keep_copy place name content disk)
]
