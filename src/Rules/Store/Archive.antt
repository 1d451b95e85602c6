-- ===== src/Rules/Store/Archive.antt =====
-- What moving and copying to the archive does to the files and to the archive.
use charles_mcp.Prelude.{
  ℕ, ◌≡◌, refl, sym, ap, subst, ◌∙◌, Bool, false, ◌&&◌, Option, none, some, [], ◌∷◌, ◌++◌, ◌==◌,
  nat_eq, eq_iff, eq_refl, eq_sym, eq_of_ne, arith, if◌then◌else◌,
}
use charles_mcp.Prelude.Text.{Text, codes, text_eq}
use charles_mcp.Prelude.Strings.{CaseTables}
use charles_mcp.Prelude.Dict.{lookup, insert, lookup-insert}
use charles_mcp.Prelude.Outcome.{ok, same_value}
use charles_mcp.JsonPatch.Python.{Python}
use charles_mcp.Rules.Names.{ends_in}
use charles_mcp.Rules.Model.{MockRule}
use charles_mcp.Rules.Disk.{
  Bytes, Node, file, dir, Disk, read_file, write_file, erase_file, keep_copy, copy_to_archive,
  move_to_archive, archived_files, erased, written,
}
use charles_mcp.Rules.Store.Saving.{read_file-erase_file}
use charles_mcp.Rules.Store.{Codec, json_name, body_name, place, archive}

ends_in-append :
    (p : ℕ → Bool) (front : Text) (c : ℕ) (cs : Text)
    → ends_in p (front ++ c ∷ cs) ≡ ends_in p (c ∷ cs)
ends_in-append p [] c cs = refl
ends_in-append p (d ∷ []) c cs = refl
ends_in-append p (d ∷ e ∷ front) c cs = ends_in-append p (e ∷ front) c cs

pub json_name-ne-body_name : (i j : Text) → (json_name i == body_name j) ≡ false
json_name-ne-body_name i j = eq_of_ne (json_name i) (body_name j) (λ same. absurd (
    cc (
      sym (ends_in-append is_n i b'.' (codes "json"))
      ∙ ap (ends_in is_n) same
      ∙ ends_in-append is_n j b'.' (codes "body"))))
  where
    is_n : ℕ → Bool
    is_n c = c == b'n'

read_file-copy_to_archive :
    (p d n e m : Text) (disk : Disk)
    → read_file e m (copy_to_archive p d n disk) ≡ read_file e m disk
read_file-copy_to_archive p d n e m disk = by_file (read_file d n disk) refl
  where
    by_file :
        (found : Option Bytes)
        → read_file d n disk ≡ found
        → read_file e m (copy_to_archive p d n disk) ≡ read_file e m disk
    by_file none r = unfold copy_to_archive in rw (r, copy_to_archive)
    by_file (some content) r =
        unfold copy_to_archive in rw (r, copy_to_archive) (unfold read_file keep_copy in refl)

read_file-move_to_archive :
    (p d n e m : Text) (disk : Disk)
    → read_file e m (move_to_archive p d n disk)
      ≡ (if d == e && n == m then none else read_file e m disk)
read_file-move_to_archive p d n e m disk = by_file (read_file d n disk) refl
  where
    gone :
        read_file d n disk ≡ none
        → read_file e m disk ≡ (if d == e && n == m then none else read_file e m disk)
    gone r = ground (
      arith,
      r,
      eq_iff d e,
      eq_iff n m,
      ap (λ t. read_file t m disk),
      ap (λ t. read_file d t disk),
    )

    by_file :
        (found : Option Bytes)
        → read_file d n disk ≡ found
        → read_file e m (move_to_archive p d n disk)
          ≡ (if d == e && n == m then none else read_file e m disk)
    by_file none r = unfold move_to_archive in rw (r, move_to_archive) (gone r)
    by_file (some content) r =
        unfold move_to_archive in
        rw (r, move_to_archive)
          (read_file-erase_file d e n m (keep_copy p n content disk)
            ∙ ap (λ t. if d == e && n == m then none else t) (unfold read_file keep_copy in refl))

-- The file of the archive, if it is there.
abbrev pub kept : Text → Text → Disk → Option Bytes
kept p n disk = lookup n (archived_files p disk)

kept-keep_copy :
    (p n q m : Text) (content : Bytes) (disk : Disk)
    → kept q m (keep_copy p n content disk)
      ≡ (if p == q && n == m then some content else kept q m disk)
unfolding keep_copy
kept-keep_copy p n q m content disk = ground (
  arith,
  lookup-insert p q (insert n content (archived_files p disk)) disk.archive,
  lookup-insert n m content (archived_files p disk),
  eq_iff p q,
)

kept-erase_file : (d n q m : Text) (disk : Disk) → kept q m (erase_file d n disk) ≡ kept q m disk
kept-erase_file d n q m disk = by_node (lookup d disk.root) refl
  where
    by_node :
        (found : Option Node)
        → lookup d disk.root ≡ found
        → kept q m (erase_file d n disk) ≡ kept q m disk
    by_node none p = unfold erase_file in rw (p, erased)
    by_node (some (file c)) p = unfold erase_file in rw (p, erased)
    by_node (some (dir fs)) p = unfold erase_file in rw (p, erased)

-- Writing leaves the archive as it is.
pub kept-write_file :
    (d n q m : Text) (content : Bytes) (disk disk' : Disk)
    → write_file d n content disk ≡ ok disk'
    → kept q m disk' ≡ kept q m disk
kept-write_file d n q m content disk disk' h = by_node (lookup d disk.root) (unfold write_file in h)
  where
    by_node :
        (found : Option Node)
        → written d n content disk found ≡ ok disk'
        → kept q m disk' ≡ kept q m disk
    by_node none k = subst (λ t. kept q m t ≡ kept q m disk) (same_value k) refl
    by_node (some (dir fs)) k = subst (λ t. kept q m t ≡ kept q m disk) (same_value k) refl
    by_node (some (file c)) k = absurd (cc)

-- What is copied to the archive is there.
kept-copy_to_archive :
    (p d n q m : Text) (content : Bytes) (disk : Disk)
    → read_file d n disk ≡ some content
    → kept q m (copy_to_archive p d n disk)
      ≡ (if p == q && n == m then some content else kept q m disk)
kept-copy_to_archive p d n q m content disk found =
    unfold copy_to_archive in rw (found, copy_to_archive) (kept-keep_copy p n q m content disk)

kept-move_to_archive :
    (p d n q m : Text) (content : Bytes) (disk : Disk)
    → read_file d n disk ≡ some content
    → kept q m (move_to_archive p d n disk)
      ≡ (if p == q && n == m then some content else kept q m disk)
kept-move_to_archive p d n q m content disk found =
    unfold move_to_archive in
    rw (found, move_to_archive)
      (kept-erase_file d n q m (keep_copy p n content disk) ∙ kept-keep_copy p n q m content disk)

-- A file of another name stays in the archive.
kept-copy_to_archive_other :
    (p d n q m : Text) (disk : Disk)
    → (n == m) ≡ false
    → kept q m (copy_to_archive p d n disk) ≡ kept q m disk
kept-copy_to_archive_other p d n q m disk other = by_file (read_file d n disk) refl
  where
    by_file :
        (found : Option Bytes)
        → read_file d n disk ≡ found
        → kept q m (copy_to_archive p d n disk) ≡ kept q m disk
    by_file none r = unfold copy_to_archive in rw (r, copy_to_archive)
    by_file (some content) r = ground (arith, kept-copy_to_archive p d n q m content disk r, other)

kept-move_to_archive_other :
    (p d n q m : Text) (disk : Disk)
    → (n == m) ≡ false
    → kept q m (move_to_archive p d n disk) ≡ kept q m disk
kept-move_to_archive_other p d n q m disk other = by_file (read_file d n disk) refl
  where
    by_file :
        (found : Option Bytes)
        → read_file d n disk ≡ found
        → kept q m (move_to_archive p d n disk) ≡ kept q m disk
    by_file none r = unfold move_to_archive in rw (r, move_to_archive)
    by_file (some content) r = ground (arith, kept-move_to_archive p d n q m content disk r, other)

module _ (py : Python) (tables : CaseTables) (codec : Codec MockRule) (d id : Text) (keep : Bool)
    (stamp : Text) (disk : Disk) where
  abbrev after : Disk
  after = archive py tables codec d id keep stamp disk

  abbrev moved : Disk
  moved = move_to_archive (place d stamp) d (json_name id) disk

  -- The rule's file is gone.
  pub read_file-archive : read_file d (json_name id) after ≡ none
  unfolding archive
  read_file-archive = ground (
    arith,
    eq_refl d,
    eq_refl (json_name id),
    read_file-move_to_archive (place d stamp) d (json_name id) d (json_name id) disk,
    read_file-move_to_archive (place d stamp) d (body_name id) d (json_name id) moved,
    read_file-copy_to_archive (place d stamp) d (body_name id) d (json_name id) moved,
  )

  pub kept-archive_rule :
      (content : Bytes)
      → read_file d (json_name id) disk ≡ some content
      → kept (place d stamp) (json_name id) after ≡ some content
  unfolding archive
  kept-archive_rule content found = ground (
    arith,
    eq_refl (place d stamp),
    eq_refl (json_name id),
    eq_sym (json_name id) (body_name id),
    json_name-ne-body_name id id,
    kept-move_to_archive (place d stamp) d (json_name id) (place d stamp) (json_name id) content
        disk found,
    kept-move_to_archive_other (place d stamp) d (body_name id) (place d stamp) (json_name id)
        moved,
    kept-copy_to_archive_other (place d stamp) d (body_name id) (place d stamp) (json_name id)
        moved,
  )

  pub kept-archive_fixture :
      (content : Bytes)
      → read_file d (body_name id) disk ≡ some content
      → kept (place d stamp) (body_name id) after ≡ some content
  unfolding archive
  kept-archive_fixture content found = ground (
    arith,
    eq_refl (place d stamp),
    eq_refl (body_name id),
    json_name-ne-body_name id id,
    read_file-move_to_archive (place d stamp) d (json_name id) d (body_name id) disk,
    kept-move_to_archive (place d stamp) d (body_name id) (place d stamp) (body_name id) content
        moved,
    kept-copy_to_archive (place d stamp) d (body_name id) (place d stamp) (body_name id) content
        moved,
    found,
  )
