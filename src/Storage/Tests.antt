-- ===== src/Storage/Tests.antt =====
-- A disk in memory, and the local backend over it.
use agent_fs.Prelude.{
  ℕ, ◌++◌, starts_with, false, ◌≡◌, refl, subst, inr, true, false, Option, none, some, [], ◌∷◌, map,
  Text, text, ◌===◌, arith, all, length,
}
use agent_fs.Errors.{ok}
use agent_fs.Paths.{strip_leading_slash, ends_with}
use agent_fs.Sql.{delete_where}
use agent_fs.Storage.{Bytes, GetObjectResult, HeadObjectResult, StorageAdapter, IsStorage}
use agent_fs.Storage.Memory.{
  Memory, has_key, lookup, stored, lookup_here, lookup_other, lookup_deleted, lookup_kept, digit,
  platform,
}
use agent_fs.Storage.Disk.{
  Node, Disk, Outcome, downloaded, IsDisk, path_of, squash, glue, done, missing, files_body,
}
use agent_fs.Storage.Legacy.{
  key_path, assert_parent_inside_root, read_sidecar, real_body, legacy_get, assert_legacy_writable,
  legacy_put, legacy_delete,
}
use agent_fs.Storage.Local.{adapter}
use agent_fs.Storage.Local.Laws.{IsFileKey, IsAddressed}
use agent_fs.Storage.Local.Laws.Guard.{IsHex, is_hex_digit}
use agent_fs.Storage.Local.Laws.Deletions.{adapter-IsStorage}

abbrev as_head : Option GetObjectResult → Option HeadObjectResult
as_head none = none
as_head (some o) =
    some (record { content_type = o.content_type; size = length o.body; etag = none })

abbrev of_object : Option GetObjectResult → Outcome GetObjectResult
of_object none = missing
of_object (some o) = done o

abbrev file_size_of : Option GetObjectResult → Outcome (Option ℕ)
file_size_of none = missing
file_size_of (some o) = done (some (length o.body))

abbrev body_in : Option GetObjectResult → Outcome Bytes
body_in none = missing
body_in (some o) = done o.body

-- The same files under a root, of which none is a directory. A sidecar is its content type.
abbrev node : Node Memory
node = record {
  root = text "/r";
  resolve = λ path. path;
  resolve_key = λ key. text "/r/" ++ path_of key;
  ancestors = λ path. text "/r" ∷ [];
  realpath = λ s path. done path;
  file_size = λ s path. file_size_of (lookup s path);
  is_directory_entry = λ s path. elim (lookup s path) [ none ↦ missing | some o ↦ done false ];
  read_file = λ s path. body_in (lookup s path);
  read_json = λ json. some (some (json, json));
  write_json = λ t b. elim t [ none ↦ text "application/octet-stream" | some u ↦ u ];
  make_directory = λ s path. (s, done tt);
  write_file = λ s path b. ((path, stored b none) ∷ s, done tt);
  rename = λ s from to. elim (lookup s from) [
    | none ↦ (s, missing)
    | some o ↦ ((to, o) ∷ delete_where (has_key from) s, done tt)
  ];
  remove = λ s path. (delete_where (has_key path) s, done tt);
  dirname = λ path. text "/r";
  staging = λ s path. path ++ text ".tmp";
}

abbrev put_legacy : Memory
put_legacy = (legacy_put node [] (text "a//x.fls-tmp") (text "one") (some (text "text/plain"))).0

-- A key of legacy-reserved-keys.ts reads as it was put, also by another spelling of its path, and
-- deleting the one spelling deletes the other.
legacy_tests :
    (legacy_get node put_legacy (text "a/x.fls-tmp")
      ≡ ok (some (record { body = text "one"; content_type = some (text "text/plain") })))
    × (legacy_get node (legacy_delete node put_legacy (text "a/x.fls-tmp")).0 (text "a//x.fls-tmp")
        ≡ ok none)
unfolding path_of squash glue ◌===◌ strip_leading_slash starts_with ends_with key_path
    assert_parent_inside_root read_sidecar real_body legacy_get assert_legacy_writable legacy_put
    legacy_delete
legacy_tests = (refl, refl)

-- A file is found by the path of its key, so that keys of one path are one object.
abbrev pub memory : Disk
memory = record {
  State = Memory;
  exists = λ s key. elim (lookup s (path_of key)) [ none ↦ done false | some o ↦ done true ];
  upload = λ s key b t. ((path_of key, stored b t) ∷ s, done tt);
  download = λ s key. of_object (lookup s (path_of key));
  delete = λ s key. (delete_where (has_key (path_of key)) s, done tt);
  head = λ s key. elim (as_head (lookup s (path_of key))) [ none ↦ missing | some o ↦ done o ];
  is_directory = λ s key. false;
  node = node;
}

pub memory-IsDisk : IsDisk memory
memory-IsDisk = record {
  upload = λ s key b t g. (
    (rw (lookup_here s (path_of key) (stored b t), memory) refl),
    (λ j gj same. inr (
        subst
          (λ path. downloaded (of_object (lookup ((path_of key, stored b t) ∷ s) path)) ≡ some b)
          same (rw (lookup_here s (path_of key) (stored b t)) refl))),
    λ j gj d. (rw (lookup_other s (path_of key) (path_of j) (stored b t) d, memory) refl),
  );
  delete = λ s key g. (
    (rw (lookup_deleted s (path_of key), memory) refl),
    λ j gj d. (rw (lookup_kept s (path_of key) (path_of j) d, memory) refl),
  );
  exists = λ s key h. present s key (lookup s (path_of key)) refl h;
}
  where
    present :
        (s : Memory) (key : Text) (o : Option GetObjectResult)
        → lookup s (path_of key) ≡ o
        → memory.exists s key ≡ done true
        → (b : Bytes) × (files_body memory s key ≡ some b)
    present s key none e h = ground arith
    present s key (some o) e h = (o.body, rw (e, memory) refl)

digits : (b : Bytes) → all is_hex_digit (map digit b) ≡ true
digits [] = refl
digits (c ∷ b) = ground (arith, digits b)

pub platform-IsHex : IsHex platform
unfolding ◌===◌
platform-IsHex b = (refl, (ground (arith, digits b)))

abbrev pub local : StorageAdapter
local = adapter memory platform

-- Two spellings of one path are one object; a key with an empty segment is no key of a file.
spelling_test :
    (path_of (text "o//a.txt") ≡ text "o/a.txt")
    × (files_body memory (memory.upload [] (text "o//a.txt") (text "x") none).0 (text "o/a.txt")
        ≡ some (text "x"))
unfolding path_of squash glue ◌===◌ strip_leading_slash
spelling_test = (refl, refl)

-- The local backend over this disk.
adapter-IsStorage_example :
    (L : IsStorage local platform.sha256) × ((key : Text) → IsFileKey key → L.IsKey key)
    × ((s : Memory) → IsAddressed memory platform s → L.IsValid s)
adapter-IsStorage_example = adapter-IsStorage memory platform memory-IsDisk platform-IsHex
