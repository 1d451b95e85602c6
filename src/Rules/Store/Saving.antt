-- ===== src/Rules/Store/Saving.antt =====
-- What a saved rule's file holds afterwards, and what stays.
use charles_mcp.Prelude.{
  ◌≡◌, refl, sym, ap, subst, ◌&&◌, Option, none, some, [], ◌==◌, nat_eq, eq_iff, arith, inl, inr,
  Bool-cases, if◌then◌else◌,
}
use charles_mcp.Prelude.Text.{Text, text_eq}
use charles_mcp.Prelude.Dict.{Dict, lookup, insert, erase, lookup-insert, lookup-erase}
use charles_mcp.Prelude.Outcome.{ok, same_value}
use charles_mcp.Rules.Disk.{
  Bytes, Files, Node, file, dir, Disk, read_file, write_file, erase_file, node_files, written,
  erased,
}

-- The directory `d` with the file `n` written, read at any two names.
lookup-node_files :
    (d e n m : Text) (content : Bytes) (files : Files) (root : Dict Text Node)
    → node_files (lookup d root) ≡ files
    → lookup m (node_files (lookup e (insert d (dir (insert n content files)) root)))
      ≡ (if d == e && n == m then some content else lookup m (node_files (lookup e root)))
lookup-node_files d e n m content files root same = elim (Bool-cases (d == e)) [
  | inl here ↦
      rw
        (
          lookup-insert d e (dir (insert n content files)) root,
          here,
          lookup-insert n m content files,
        )
        (rw (sym ((eq_iff d e).0 here), same))
  | inr away ↦ rw (lookup-insert d e (dir (insert n content files)) root, away)
]

-- Reading after writing, for any two files.
pub read_file-write_file :
    (d e n m : Text) (content : Bytes) (disk disk' : Disk)
    → write_file d n content disk ≡ ok disk'
    → read_file e m disk' ≡ (if d == e && n == m then some content else read_file e m disk)
read_file-write_file d e n m content disk disk' h =
    by_node (lookup d disk.root) refl (unfold write_file in h)
  where
    by_node :
        (found : Option Node)
        → lookup d disk.root ≡ found
        → written d n content disk found ≡ ok disk'
        → read_file e m disk' ≡ (if d == e && n == m then some content else read_file e m disk)
    by_node none p k =
        subst
          (λ t. read_file e m t ≡ (if d == e && n == m then some content else read_file e m disk))
          (same_value k)
          (unfold read_file in lookup-node_files d e n m content [] disk.root (ap node_files p))
    by_node (some (dir fs)) p k =
        subst
          (λ t. read_file e m t ≡ (if d == e && n == m then some content else read_file e m disk))
          (same_value k)
          (unfold read_file in lookup-node_files d e n m content fs disk.root (ap node_files p))
    by_node (some (file c)) p k = absurd (cc)

lookup-node_files-erase :
    (d e n m : Text) (files : Files) (root : Dict Text Node)
    → node_files (lookup d root) ≡ files
    → lookup m (node_files (lookup e (insert d (dir (erase n files)) root)))
      ≡ (if d == e && n == m then none else lookup m (node_files (lookup e root)))
lookup-node_files-erase d e n m files root same = elim (Bool-cases (d == e)) [
  | inl here ↦
      rw (lookup-insert d e (dir (erase n files)) root, here, lookup-erase n m files)
        (rw (sym ((eq_iff d e).0 here), same))
  | inr away ↦ rw (lookup-insert d e (dir (erase n files)) root, away)
]

no_files :
    (d e n m : Text) (root : Dict Text Node)
    → node_files (lookup d root) ≡ []
    → lookup m (node_files (lookup e root))
      ≡ (if d == e && n == m then none else lookup m (node_files (lookup e root)))
no_files d e n m root empty = elim (Bool-cases (d == e)) [
  | inl here ↦ rw (here, sym ((eq_iff d e).0 here), empty) (unfold lookup in ground arith)
  | inr away ↦ rw away
]

-- Reading after a file is gone.
pub read_file-erase_file :
    (d e n m : Text) (disk : Disk)
    → read_file e m (erase_file d n disk) ≡ (if d == e && n == m then none else read_file e m disk)
read_file-erase_file d e n m disk = by_node (lookup d disk.root) refl
  where
    by_node :
        (found : Option Node)
        → lookup d disk.root ≡ found
        → read_file e m (erase_file d n disk)
          ≡ (if d == e && n == m then none else read_file e m disk)
    by_node none p =
        unfold erase_file in
        rw (p, erased) (unfold read_file in no_files d e n m disk.root (ap node_files p))
    by_node (some (file c)) p =
        unfold erase_file in
        rw (p, erased) (unfold read_file in no_files d e n m disk.root (ap node_files p))
    by_node (some (dir fs)) p =
        unfold erase_file in
        rw (p, erased)
          (unfold read_file in lookup-node_files-erase d e n m fs disk.root (ap node_files p))
