-- ===== src/Rules/Store/Versions.antt =====
-- Rules come back as they were saved, other rules stay, and what is replaced or removed is kept in
-- the archive.
use charles_mcp.Prelude.{
  ◌≡◌, sym, ap, ◌∙◌, Bool, true, false, ◌&&◌, Option, none, some, nat_eq, eq_refl, arith,
  if◌then◌else◌,
}
use charles_mcp.Prelude.Text.{Text, text_eq}
use charles_mcp.Prelude.Strings.{CaseTables}
use charles_mcp.Prelude.Outcome.{ok, raise, chain-parts, same_value}
use charles_mcp.JsonPatch.Python.{Python}
use charles_mcp.Rules.Model.{MockRule, check_rule}
use charles_mcp.Rules.Disk.{Bytes, Disk, not_found, read_file, write_file}
use charles_mcp.Rules.Store.Saving.{read_file-write_file}
use charles_mcp.Rules.Store.Archive.{
  kept, read_file-archive, kept-archive_rule, kept-write_file, kept-archive_fixture,
}
use charles_mcp.Rules.Store.{
  Codec, json_name, body_name, place, rule_path, write_fixture, is_none, exists, parse_rule,
  archive, save_rule, get_rule, remove_rule,
}

module _ (py : Python) (tables : CaseTables) (codec : Codec MockRule) where
  parse_rule-encode :
      (rule : MockRule)
      → codec.decode (codec.encode rule) ≡ some rule
      → check_rule tables py rule ≡ ok rule
      → parse_rule py tables codec (codec.encode rule) ≡ some rule
  unfolding parse_rule
  parse_rule-encode rule reads_back valid =
      rw (reads_back, parse_rule) (unfold parse_rule in ground (arith, valid))

  -- The steps of a save: the disk after the archive, after the fixture, and after the rule.
  record Saved (rule : MockRule) (fixture : Option Bytes) (previous : Bool) (stamp d id : Text)
      (disk disk' : Disk) (archived : Bool) : Type 0 where
    bodied : Disk
    archives : archived ≡ (previous && exists py tables codec (read_file d (json_name id) disk))
    writes_body :
        write_fixture py tables codec d id fixture (
          if previous && exists py tables codec (read_file d (json_name id) disk)
          then archive py tables codec d id (is_none py tables codec fixture) stamp disk
          else disk)
        ≡ ok bodied
    writes_rule : write_file d (json_name id) (codec.encode rule) bodied ≡ ok disk'

  save_rule-Saved :
      (rule : MockRule) (fixture : Option Bytes) (previous : Bool) (stamp d id : Text)
      (disk disk' : Disk) (archived : Bool)
      → rule_path py tables codec rule.host rule.id ≡ ok (d, id)
      → save_rule py tables codec rule fixture previous stamp disk ≡ ok (disk', archived)
      → Saved rule fixture previous stamp d id disk disk' archived
  unfolding save_rule
  save_rule-Saved rule fixture previous stamp d id disk disk' archived path h =
      let found = previous && exists py tables codec (read_file d (json_name id) disk) in
      let kept_disk : Disk =
        if found
        then archive py tables codec d id (is_none py tables codec fixture) stamp disk
        else disk in
      let (bodied, f, h₂) =
        chain-parts (write_fixture py tables codec d id fixture kept_disk) _ (rw path at h) in
      let (saved, w, h₃) =
        chain-parts (write_file d (json_name id) (codec.encode rule) bodied) _ h₂ in
      let last = same_value h₃ in
      record {
        bodied = bodied;
        archives = sym (ap (λ p. p.1) last);
        writes_body = f;
        writes_rule = w ∙ ap (λ p. ok p.0) last;
      }

  -- A rule that its validators leave as it is and that its JSON reads back as is returned by
  -- `get_rule` after it was saved, with or without a fixture and an older version.
  pub save_rule-get_rule :
      (rule : MockRule) (fixture : Option Bytes) (previous : Bool) (stamp : Text)
      (disk disk' : Disk) (archived : Bool)
      → codec.decode (codec.encode rule) ≡ some rule
      → check_rule tables py rule ≡ ok rule
      → save_rule py tables codec rule fixture previous stamp disk ≡ ok (disk', archived)
      → get_rule py tables codec rule.host rule.id disk' ≡ ok rule
  unfolding get_rule save_rule
  save_rule-get_rule rule fixture previous stamp disk disk' archived c valid h =
      let ((d, id), path, rest) = chain-parts (rule_path py tables codec rule.host rule.id) _ h in
      let s = save_rule-Saved rule fixture previous stamp d id disk disk' archived path h in
      let there =
        read_file-write_file d d (json_name id) (json_name id) (codec.encode rule) s.bodied disk'
          s.writes_rule in
      rw (path, there, eq_refl d, eq_refl (json_name id), parse_rule-encode rule c valid)

  -- A rule that is there, by a valid host and id, is not found any more after it was removed, and
  -- its file and its fixture are in the archive.
  pub remove_rule-get_rule :
      (host rule_id stamp d id : Text) (content : Bytes) (disk disk' : Disk)
      → rule_path py tables codec host rule_id ≡ ok (d, id)
      → read_file d (json_name id) disk ≡ some content
      → remove_rule py tables codec host rule_id stamp disk ≡ ok disk'
      → (get_rule py tables codec host rule_id disk' ≡ raise not_found)
        × (kept (place d stamp) (json_name id) disk' ≡ some content)
        × ((body : Bytes)
            → read_file d (body_name id) disk ≡ some body
            → kept (place d stamp) (body_name id) disk' ≡ some body)
  unfolding get_rule remove_rule
  remove_rule-get_rule host rule_id stamp d id content disk disk' path found h =
      let removed = same_value (rw (path, found) at h) in
      (
        rw (path, sym removed, read_file-archive py tables codec d id false stamp disk),
        rw (sym removed) (kept-archive_rule py tables codec d id false stamp disk content found),
        λ body there.
            rw (sym removed)
              (kept-archive_fixture py tables codec d id false stamp disk body there),
      )

  kept-write_fixture :
      (fixture : Option Bytes) (d id q m : Text) (disk disk' : Disk)
      → write_fixture py tables codec d id fixture disk ≡ ok disk'
      → kept q m disk' ≡ kept q m disk
  kept-write_fixture none d id q m disk disk' h = ap (kept q m) (sym (same_value h))
  kept-write_fixture (some content) d id q m disk disk' h =
      kept-write_file d (body_name id) q m content disk disk' h

  -- A save over a rule that is there, with `archive_previous`, reports that it archived and leaves
  -- the old file and the old fixture in the archive.
  pub save_rule-kept :
      (rule : MockRule) (fixture : Option Bytes) (stamp d id : Text) (content : Bytes)
      (disk disk' : Disk) (archived : Bool)
      → rule_path py tables codec rule.host rule.id ≡ ok (d, id)
      → read_file d (json_name id) disk ≡ some content
      → save_rule py tables codec rule fixture true stamp disk ≡ ok (disk', archived)
      → (archived ≡ true)
        × (kept (place d stamp) (json_name id) disk' ≡ some content)
        × ((body : Bytes)
            → read_file d (body_name id) disk ≡ some body
            → kept (place d stamp) (body_name id) disk' ≡ some body)
  save_rule-kept rule fixture stamp d id content disk disk' archived path found h =
      let s = save_rule-Saved rule fixture true stamp d id disk disk' archived path h in
      let keep = is_none py tables codec fixture in
      let stored : Disk = archive py tables codec d id keep stamp disk in
      let bodied : write_fixture py tables codec d id fixture stored ≡ ok s.bodied =
        rw found at s.writes_body in
      let same = λ (m : Text).
        kept-write_file d (json_name id) (place d stamp) m (codec.encode rule) s.bodied disk'
          s.writes_rule
        ∙ kept-write_fixture fixture d id (place d stamp) m stored s.bodied bodied in
      (
        rw found at s.archives,
        same (json_name id) ∙ kept-archive_rule py tables codec d id keep stamp disk content found,
        λ body there.
            same (body_name id)
            ∙ kept-archive_fixture py tables codec d id keep stamp disk body there,
      )
