-- ===== src/Storage/Disk.antt =====
-- The disk under storage/local-adapter.ts: the calls of files-sdk, and those of Node that
-- legacy-reserved-keys.ts makes, over an unknown state. `IsDisk` is what files-sdk documents: a call
-- at one key leaves what keys of other paths read as, and its commit is a rename. Nothing is assumed
-- of the calls of Node.
use agent_fs.Prelude.{
  List, ℕ, ◌≡◌, ◌⊎◌, Bool, true, false, ◌&&◌, Option, none, some, [], ◌∷◌, Text, ◌===◌, ◌==◌,
  if◌then◌else◌,
}
use agent_fs.Errors.{ok}
use agent_fs.Paths.{strip_leading_slash, assert_key_inside_drive}
use agent_fs.Storage.{Bytes, GetObjectResult, HeadObjectResult}

-- How a call ends. `missing` is a `FilesError` of files-sdk with the code "NotFound", or an error of
-- Node with the code ENOENT or ENOTDIR; `broken` is any other.
pub data Outcome {ℓ} (A : Type ℓ) : Type ℓ where
  done : A → Outcome A
  missing broken : Outcome A

-- What legacy-reserved-keys.ts calls of Node, with the root that the backend manages. `ancestors` are
-- the directories that `dirname` gives, one after the other. A sidecar that is JSON is read to its
-- content type and tag, where it has all its fields. `file_size` is `stat` of a file, `remove` the
-- forced `rm`, and `staging` draws the name of a staging file.
pub record Node (S : Type 0) : Type 0 where
  pub root : Text
  pub resolve : Text → Text
  pub resolve_key : Text → Text
  pub ancestors : Text → List Text
  pub realpath : S → Text → Outcome Text
  pub file_size : S → Text → Outcome (Option ℕ)
  pub is_directory_entry : S → Text → Outcome Bool
  pub read_file : S → Text → Outcome Bytes
  pub read_json : Bytes → Option (Option (Text × Text))
  pub write_json : Option Text → Bytes → Bytes
  pub make_directory : S → Text → S × Outcome (Unit {0})
  pub write_file : S → Text → Bytes → S × Outcome (Unit {0})
  pub rename : S → Text → Text → S × Outcome (Unit {0})
  pub remove : S → Text → S × Outcome (Unit {0})
  pub dirname : Text → Text
  pub staging : S → Text → Text

pub record Disk : Type 1 where
  pub State : Type 0
  pub exists : State → Text → Outcome Bool
  pub upload : State → Text → Bytes → Option Text → State × Outcome (Unit {0})
  pub download : State → Text → Outcome GetObjectResult
  pub delete : State → Text → State × Outcome (Unit {0})
  pub head : State → Text → Outcome HeadObjectResult
  pub is_directory : State → Text → Bool
  pub node : Node State

abbrev pub downloaded : Outcome GetObjectResult → Option Bytes
downloaded (done o) = some o.body
downloaded missing = none
downloaded broken = none

-- one more character before a path, and no slash before another or at the end
unfoldable pub glue : ℕ → Text → Text
glue c [] = if c == b'/' then [] else c ∷ []
glue c (d ∷ s) = if c == b'/' && d == b'/' then d ∷ s else c ∷ d ∷ s

unfoldable pub squash : Text → Text
unfolding glue
squash [] = []
squash (c ∷ s) = glue c (squash s)

-- The path of a key under the root, as a file system reads it: its segments that are not empty.
unfoldable pub path_of : Text → Text
unfolding squash
path_of key = strip_leading_slash (squash key)

module _ (D : Disk) where
  abbrev pub files_body : D.State → Text → Option Bytes
  files_body s key = downloaded (D.download s key)

  -- Every key of another path reads as before.
  abbrev pub OthersKept : D.State → D.State → Text → Type 0
  OthersKept s s' key =
      (j : Text)
      → assert_key_inside_drive j ≡ ok tt
      → path_of key === path_of j ≡ false
      → files_body s' j ≡ files_body s j

  -- Every spelling of the path of the key reads as before, or as the new bytes.
  abbrev pub SpellingsKept : D.State → D.State → Text → Bytes → Type 0
  SpellingsKept s s' key b =
      (j : Text)
      → assert_key_inside_drive j ≡ ok tt
      → path_of key ≡ path_of j
      → (files_body s' j ≡ files_body s j) ⊎ (files_body s' j ≡ some b)

-- What the key reads as after a call that stored bytes there.
abbrev pub Stored : Outcome (Unit {0}) → Option Bytes → Bytes → Type 0
Stored (done u) after b = after ≡ some b
Stored missing after b = Unit
Stored broken after b = Unit

-- After a deletion that succeeds, or finds no object, the key has none.
abbrev pub Removed : Outcome (Unit {0}) → Option Bytes → Outcome GetObjectResult → Type 0
Removed (done u) before after = after ≡ missing
Removed missing before after = after ≡ missing
Removed broken before after = (downloaded after ≡ before) ⊎ (downloaded after ≡ none)

-- What files-sdk promises, of keys whose segments stay inside the root. A call at a key reads and
-- writes the file of its path, so that keys of one path may be one object.
pub record IsDisk (D : Disk) : Type 0 where
  pub upload :
      (s : D.State) (key : Text) (b : Bytes) (t : Option Text)
      → assert_key_inside_drive key ≡ ok tt
      → Stored (D.upload s key b t).1 (files_body D (D.upload s key b t).0 key) b
        × SpellingsKept D s (D.upload s key b t).0 key b
        × OthersKept D s (D.upload s key b t).0 key
  pub delete :
      (s : D.State) (key : Text)
      → assert_key_inside_drive key ≡ ok tt
      → Removed (D.delete s key).1 (files_body D s key) (D.download (D.delete s key).0 key)
        × OthersKept D s (D.delete s key).0 key
  pub exists :
      (s : D.State) (key : Text)
      → D.exists s key ≡ done true
      → (b : Bytes) × (files_body D s key ≡ some b)
