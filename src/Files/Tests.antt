-- ===== src/Files/Tests.antt =====
-- Versions, writes and edits at small inputs.
use agent_fs.Prelude.{
  ℕ, ◌+◌, ◌≡◌, refl, none, some, [], ◌∷◌, ◌++◌, Text, text, arith, ◌===◌, starts_with, Option,
}
use agent_fs.Errors.{ok, err, edit_conflict}
use agent_fs.Paths.{normalize_path, with_leading_slash, ends_with, drop_last}
use agent_fs.Webhooks.Outbox.{enqueue_file_webhooks}
use agent_fs.Files.{FileDb, OpContext, max_version, head_row, file_of}
use agent_fs.Files.Versions.{
  new_version, VersionParams, Drawn, get_next_version, assert_expected_version,
  get_head_content_hash, upsert_file, create_version_at, create_version, committed,
}
use agent_fs.Files.Versions.Invariant.{IsVersioned}
use agent_fs.Files.Versions.Interleaved.{Step, Run, Run-IsVersioned, Read}
use agent_fs.Files.Write.{
  WriteParams, Uploaded, Checked, check_write, commit_write, write_internal, write_version,
}
use agent_fs.Files.Write.Laws.{expected_once, stale_commit, written, top}
use agent_fs.Files.Edit.{scan, parts, split_at_first, expand, replace, edit_text}
use agent_fs.Files.Edit.Laws.{edit_text-plain, edit_text-dollar}

runs : Unit {0}
unfolding ◌===◌ starts_with normalize_path with_leading_slash ends_with drop_last
    enqueue_file_webhooks max_version head_row file_of get_next_version assert_expected_version
    get_head_content_hash upsert_file create_version_at create_version check_write commit_write
    write_internal
runs = tt

abbrev empty : FileDb
empty = record {
  versions = [];
  files = [];
  webhooks = record { subscriptions = []; deliveries = [] };
}

abbrev ann : OpContext
ann = record { org_id = text "o1"; drive_id = text "d1"; user_id = text "ann" }

abbrev draw : ℕ → Drawn
draw now = record { now = now; delivery_id = λ s. s; event_id = text "e1"; payload = [] }

abbrev note : Text → Option ℕ → WriteParams
note hash expected = record {
  path = text "a.md";
  size = 5;
  content_hash = hash;
  expected_version = expected;
}

abbrev stored : Uploaded
stored = record { version_id = text "s1"; etag = none; content_type = none }

abbrev one_note : FileDb
one_note = written empty ann (note (text "h1") (some 0)) stored (draw 1000)

write_tests :
    (check_write empty ann 100 (note (text "h1") (some 0)) ≡ ok Checked.upload)
    × (check_write empty ann 100 (note (text "h1") (some 1)) ≡ err edit_conflict)
    × (check_write one_note ann 100 (note (text "h1") (some 1)) ≡ ok (Checked.deduped 1))
    × (check_write one_note ann 100 (note (text "h2") (some 1)) ≡ ok Checked.upload)
unfolding runs
write_tests = (refl, refl, refl, refl)

empty-IsVersioned : IsVersioned empty
unfolding runs
empty-IsVersioned = record {
  agrees = λ p d. tt;
  dense = λ p d v low high. ground (arith, low, high);
  distinct = tt;
}

abbrev first : VersionParams
first = write_version (note (text "h1") none) stored

abbrev read_once : Read
read_once = record {
  ctx = ann;
  path = text "/a.md";
  version = get_next_version empty ann (text "/a.md");
}

first_commit :
    create_version_at empty ann first (draw 1000) (get_next_version empty ann (text "/a.md"))
    ≡ ok (committed empty ann first (draw 1000) 1)
unfolding runs
first_commit = refl

same_path : first.path ≡ text "/a.md"
unfolding runs
same_path = refl

Run-IsVersioned_example : IsVersioned (committed empty ann first (draw 1000) 1)
Run-IsVersioned_example =
    Run-IsVersioned
      {s = record { db = committed empty ann first (draw 1000) 1; reads = read_once ∷ [] }}
      empty-IsVersioned
      (Run.then_step (Run.then_step Run.start (Step.read ann (text "/a.md"))) (
        Step.commit 0 read_once first (draw 1000) (committed empty ann first (draw 1000) 1) refl
          same_path first_commit))

expected_once_example :
    (write_internal empty ann 100 (note (text "h1") (some 0)) stored (draw 1000)
      ≡ ok (one_note, top empty ann (note (text "h1") (some 0)) + 1))
    × (check_write one_note ann 100 (note (text "h2") (some 0)) ≡ err edit_conflict)
expected_once_example =
    expected_once empty ann 100 100 0 (note (text "h1") (some 0)) (note (text "h2") (some 0)) stored
      (draw 1000) refl refl refl refl write_tests.0

abbrev second : WriteParams
second = note (text "h2") (some 0)

second_check : check_write empty ann 100 second ≡ ok Checked.upload
unfolding runs
second_check = refl

stale_commit_example :
    (check_write one_note ann 100 second ≡ err edit_conflict)
    × (commit_write one_note ann second stored (draw 2000)
        ≡ ok (
          written one_note ann second stored (draw 2000),
          top empty ann (note (text "h1") (some 0)) + 2,
        ))
    × (head_row
          (normalize_path (note (text "h1") (some 0)).path)
          ann.drive_id
          (written one_note ann second stored (draw 2000)).versions
        ≡ some (
            new_version ann
              (write_version second stored)
              (top empty ann (note (text "h1") (some 0)) + 2)
              (draw 2000).now))
stale_commit_example =
    stale_commit empty ann 100 0 (note (text "h1") (some 0)) second stored stored (draw 1000)
      (draw 2000) refl refl refl write_tests.0 second_check

edits : Unit {0}
unfolding scan parts split_at_first expand replace edit_text starts_with
edits = tt

edit_tests :
    (edit_text (text "one two") (text "two") (text "2") ≡ ok (text "one 2"))
    × (edit_text (text "two two") (text "two") (text "2") ≡ err edit_conflict)
    × (edit_text (text "one") (text "two") (text "2") ≡ err edit_conflict)
    × (edit_text (text "one two") (text "two") (text "$&") ≡ ok (text "one two"))
    × (edit_text (text "aaa") (text "aa") (text "b") ≡ ok (text "ba"))
unfolding edits
edit_tests = (refl, refl, refl, refl, refl)

edit_text-plain_example :
    (p : Text × Text) × (p.0 ++ text "two" ++ p.1 ≡ text "one two")
    × (text "one 2" ≡ p.0 ++ text "2" ++ p.1)
edit_text-plain_example =
    edit_text-plain (text "one two") (text "two") (text "2") (text "one 2") refl edit_tests.0

edit_text-dollar_example : edit_text (text "one two") (text "two") (text "$&") ≡ ok (text "one two")
edit_text-dollar_example =
    edit_text-dollar (text "one two") (text "two") (text "2") (text "one 2") edit_tests.0
