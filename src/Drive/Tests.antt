-- ===== src/Drive/Tests.antt =====
-- Drives on the backend in memory.
use agent_fs.Prelude.{
  ℕ, ◌≡◌, refl, ◌⊎◌, true, false, Option, none, some, List, [], ◌∷◌, ◌++◌, Text, text, arith, ◌===◌,
  starts_with, length, ◌-◌,
}
use agent_fs.Errors.{
  Result, ok, err, AgentError, not_found, edit_conflict, validation, get_status_code,
}
use agent_fs.Paths.{
  normalize_path, with_leading_slash, ends_with, drop_last, strip_leading_slash, get_s3_key,
  includes, split_on, assert_key_inside_drive,
}
use agent_fs.Webhooks.Outbox.{enqueue_file_webhooks}
use agent_fs.Storage.{Bytes, StorageAdapter, IsStorage}
use agent_fs.Storage.Memory as Memory
use agent_fs.Storage.Memory.{platform}
use agent_fs.Mime.{
  detect_mime_type, is_indexable_mime_type, looks_like_text_bytes, decode_indexable_text,
}
use agent_fs.Files.{OpContext, max_version, head_row, file_of}
use agent_fs.Files.Versions.{
  Drawn, get_next_version, assert_expected_version, get_head_content_hash, upsert_file,
  create_version_at, create_version,
}
use agent_fs.Files.Write.{check_write}
use agent_fs.Files.Edit.{scan, parts, split_at_first, expand, replace, edit_text}
use agent_fs.Drive.{Drive, store_version, write, append, edit, rm, copy_and_record, cp, mv, revert}
use agent_fs.Drive.Requests.{
  Request, write_file, edit_file, cp_file, mv_file, rm_file, revert_file, handle, Specified,
}
use agent_fs.Drive.Laws.{IsDriveContext, IsRecorded, IsCurrent, view}
use agent_fs.Drive.Laws.Refined.{handle_refines}
use agent_fs.Drive.Laws.Restored.{run_all, revert_restores}
use agent_fs.Drive.Laws.Safe.{mv_keeps_bytes, handle-IsConfined}
use agent_fs.Drive.Laws.Confined.{IsConfined}
use agent_fs.Drive.Reads.{CatResult, cat, tail, stat, join, lines_of}
use agent_fs.Drive.Reads.Pages.{cat_and_tail}
use agent_fs.Drive.Reads.Missing.{removed_refused}

runs : Unit {0}
unfolding ◌===◌ starts_with normalize_path with_leading_slash ends_with drop_last
    strip_leading_slash get_s3_key includes split_on assert_key_inside_drive enqueue_file_webhooks
    detect_mime_type is_indexable_mime_type looks_like_text_bytes decode_indexable_text max_version
    head_row file_of get_next_version assert_expected_version get_head_content_hash upsert_file
    create_version_at create_version check_write scan parts split_at_first expand replace edit_text
    store_version write append edit rm copy_and_record cp mv revert handle cat tail stat join
runs = tt

abbrev ann : OpContext
ann = record { org_id = text "o1"; drive_id = text "d1"; user_id = text "ann" }

abbrev memory : StorageAdapter
memory = Memory.backend platform

abbrev lawful : IsStorage memory platform.sha256
lawful = Memory.lawful platform

ann-IsDriveContext : IsDriveContext memory platform lawful ann
unfolding includes
ann-IsDriveContext = record { org = refl; drive = refl; keys = λ path. tt }

abbrev empty : Drive memory
empty = record {
  db = record {
    versions = [];
    files = [];
    webhooks = record { subscriptions = []; deliveries = [] };
  };
  store = record { current = []; versions = [] };
}

empty-IsRecorded : IsRecorded memory platform lawful ann empty
empty-IsRecorded = record { valid = λ v b e. ground (arith, e); history = tt }

empty-IsCurrent : IsCurrent memory platform lawful ann empty
unfolding head_row
empty-IsCurrent path h x e hx = ground (arith, e)

abbrev draw : ℕ → Drawn
draw now = record { now = now; delivery_id = λ s. s; event_id = text "e1"; payload = [] }

abbrev first_write : Request
first_write = write_file 100 (text "a.md") (text "one") none (draw 1000)

abbrev one_file : Drive memory
one_file = (handle memory platform empty ann first_write).0

abbrev run : Drive memory → Request → Drive memory × Result ℕ
run d request = handle memory platform d ann request

abbrev edited : Drive memory
edited = (run one_file (edit_file (text "/a.md") (text "n") (text "y") (some 1) (draw 1001))).0

abbrev here : Drive memory → Text → Option Bytes
here d path = view memory platform lawful ann d path

operation_tests :
    (here one_file (text "a.md") ≡ some (text "one"))
    × (here edited (text "a.md") ≡ some (text "oye"))
    × (here (run edited (revert_file (text "a.md") 1 none (draw 1002))).0 (text "a.md")
        ≡ some (text "one"))
    × (here
          (run edited (mv_file (text "a.md") (text "b.md") (some 2) (draw 1003) (draw 1004))).0
          (text "b.md")
        ≡ some (text "oye"))
    × ((run edited (mv_file (text "a.md") (text "b.md") (some 1) (draw 1003) (draw 1004))).1
        ≡ err edit_conflict)
    × ((run edited (cp_file (text "a.md") (text "/a.md") none (draw 1003))).1 ≡ err validation)
unfolding runs
operation_tests = (refl, refl, refl, refl, refl, refl)

handle_refines_example :
    Specified platform empty.db ann first_write (here empty) (here one_file)
    × IsRecorded memory platform lawful ann one_file
    × IsCurrent memory platform lawful ann one_file
unfolding runs
handle_refines_example =
    handle_refines memory platform lawful ann ann-IsDriveContext empty empty-IsRecorded
      empty-IsCurrent first_write 1 refl

one_file-IsRecorded : IsRecorded memory platform lawful ann one_file
one_file-IsRecorded =
    (handle-IsConfined memory platform lawful ann ann-IsDriveContext empty empty-IsRecorded
      first_write).0.recorded

abbrev moved : Drive memory
moved = (mv memory platform one_file ann (text "a.md") (text "b.md") none (draw 1001) (draw 1002)).0

mv_keeps_bytes_example :
    (here moved (text "a.md") ≡ some (text "one")) ⊎ (here moved (text "b.md") ≡ some (text "one"))
unfolding runs
mv_keeps_bytes_example =
    mv_keeps_bytes memory platform lawful ann ann-IsDriveContext one_file one_file-IsRecorded
      (text "a.md") (text "b.md") none (draw 1001) (draw 1002) (text "one") refl

handle-IsConfined_example :
    IsConfined memory platform lawful ann ann-IsDriveContext one_file
      (text "a.md")
      (text "c.md")
      (run one_file (cp_file (text "a.md") (text "c.md") none (draw 1001)))
    × ((ctx' : OpContext)
        → IsDriveContext memory platform lawful ctx'
        → ann.drive_id === ctx'.drive_id ≡ false
        → (path : Text)
        → view memory platform lawful ctx'
            (run one_file (cp_file (text "a.md") (text "c.md") none (draw 1001))).0
            path
          ≡ view memory platform lawful ctx' one_file path)
handle-IsConfined_example =
    handle-IsConfined memory platform lawful ann ann-IsDriveContext one_file one_file-IsRecorded
      (cp_file (text "a.md") (text "c.md") none (draw 1001))

abbrev three_lines : Text
three_lines = b'a' ∷ 10 ∷ b'b' ∷ 10 ∷ b'c' ∷ []

abbrev lines_file : Drive memory
lines_file = (run empty (write_file 100 (text "l.txt") three_lines none (draw 1000))).0

cat_and_tail_example :
    (cat memory platform lines_file ann (text "l.txt") none (some 5)
      ≡ ok (record {
        content = three_lines;
        total_lines = length (lines_of three_lines);
        truncated = false;
      }))
    × ((front back : CatResult) × (cat memory platform lines_file ann (text "l.txt") none (some 2)
          ≡ ok front)
        × (tail memory platform lines_file ann
              (text "l.txt")
              (some (length (lines_of three_lines) - 2))
            ≡ ok back)
        × (front.content ++ (10 ∷ back.content) ≡ three_lines)
        × (front.truncated ≡ true)
        × (back.truncated ≡ true))
unfolding runs
cat_and_tail_example =
    cat_and_tail memory platform lines_file ann (text "l.txt")
      (record { body = three_lines; content_type = some (text "text/plain") }) three_lines 5 2 refl
      refl refl (omega arith) (omega arith) (omega arith)

abbrev emptied : Drive memory
emptied = (rm memory platform one_file ann (text "a.md") none (draw 1001)).0

removed_refused_example :
    (cat memory platform emptied ann (text "a.md") none none ≡ err not_found)
    × (tail memory platform emptied ann (text "a.md") none ≡ err not_found)
    × (append memory platform emptied ann (text "a.md") (text "x") none (draw 1002)
        ≡ (emptied, err not_found))
    × (edit memory platform emptied ann (text "a.md") (text "o") (text "x") none (draw 1002)
        ≡ (emptied, err not_found))
    × (get_status_code not_found ≡ 404)
    × ((e : AgentError) × (cp memory platform emptied ann
            (text "a.md")
            (text "b.md")
            none
            (draw 1002)
          ≡ (emptied, err e))
        × ((get_status_code e ≡ 500) ⊎ (e ≡ validation)))
    × ((e : AgentError) × (mv memory platform emptied ann
            (text "a.md")
            (text "b.md")
            none
            (draw 1002)
            (draw 1003)
          ≡ (emptied, err e))
        × ((get_status_code e ≡ 500) ⊎ (e ≡ validation)))
unfolding runs
removed_refused_example =
    removed_refused memory platform lawful ann ann-IsDriveContext one_file one_file-IsRecorded
      (text "a.md") (text "b.md") none (draw 1001) (draw 1002) (draw 1003) 2 none none (text "x")
      (text "o") (text "x") refl refl

abbrev later_requests : List Request
later_requests =
    edit_file (text "/a.md") (text "n") (text "y") (some 1) (draw 1001)
    ∷ edit_file (text "/a.md") (text "z") (text "y") none (draw 1002)
    ∷ rm_file (text "a.md") (some 2) (draw 1003)
    ∷ []

abbrev removed : Drive memory
removed = run_all memory platform lawful ann ann-IsDriveContext one_file later_requests

abbrev restored : Drive memory
restored = (revert memory platform removed ann (text "a.md") 1 (some 3) (draw 1004)).0

revert_restores_example :
    (b : Bytes) × (here restored (text "a.md") ≡ some b)
    × (platform.sha256 b ≡ platform.sha256 (text "one"))
unfolding runs run_all
revert_restores_example =
    revert_restores memory platform lawful ann ann-IsDriveContext empty one_file restored 100 1 4
      (text "a.md") (text "one") (draw 1000) (draw 1004) later_requests (some 3) empty-IsRecorded
      refl refl
