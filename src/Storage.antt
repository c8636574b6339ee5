-- ===== src/Storage.antt =====
-- storage/adapter.ts: the contract of a storage backend, over an unknown state, and what the file
-- operations rely on. Listing, signed URLs and S3's own version list are not modelled. Metadata that
-- only the clock gives (`lastModified`) is left out; an object's size is the length of its body.
pub mod Disk
pub mod Legacy
pub mod Local
pub mod Memory
pub mod Tests
use agent_fs.Prelude.{
  ℕ, ◌≡◌, ◌⊎◌, Bool, true, false, Option, none, some, List, [], Text, ◌===◌, length,
}
use agent_fs.Errors.{Result, ok, err, AgentError, no_such_key, validation}

abbrev pub Bytes : Type 0
Bytes = List ℕ

-- What the JavaScript platform gives: SHA-256 in hexadecimal, and UTF-8 both ways. `decode` is
-- `TextDecoder` as it stands, `decode_strict` the fatal one.
pub record Platform : Type 0 where
  pub sha256 : Bytes → Text
  pub encode : Text → Bytes
  pub decode : Bytes → Text
  pub decode_strict : Bytes → Option Text

pub record PutObjectResult : Type 0 where
  pub etag : Option Text
  pub version_id : Option Text

pub record GetObjectResult : Type 0 where
  pub body : Bytes
  pub content_type : Option Text

pub record HeadObjectResult : Type 0 where
  pub content_type : Option Text
  pub size : ℕ
  pub etag : Option Text

pub record StorageAdapter : Type 1 where
  pub State : Type 0
  pub has_versioning : Bool
  pub put_object : State → Text → Bytes → Option Text → State × Result PutObjectResult
  pub get_object : State → Text → Option Text → Result GetObjectResult
  pub delete_object : State → Text → State × Result (Unit {0})
  pub copy_object : State → Text → Text → State × Result PutObjectResult
  pub head_object : State → Text → Result HeadObjectResult

abbrev pub body_of : Result GetObjectResult → Option Bytes
body_of (ok o) = some o.body
body_of (err e) = none

module _ (A : StorageAdapter) where
  -- what a key, and a version handle of it, read as
  abbrev pub content : A.State → Text → Option Bytes
  content s key = body_of (A.get_object s key none)

  abbrev pub version_content : A.State → Text → Text → Option Bytes
  version_content s key v = body_of (A.get_object s key (some v))

  -- The handle reads bytes of that hash.
  abbrev pub Holds : (Bytes → Text) → A.State → Text → Text → Text → Type 0
  Holds hash s key v x = (b : Bytes) × (version_content s key v ≡ some b) × (hash b ≡ x)

-- What the handles of a key that are not empty hold, they go on holding.
abbrev pub Keeps : (A : StorageAdapter) → (Bytes → Text) → A.State → A.State → Type 0
Keeps A hash s s' =
    (key v x : Text) → v === [] ≡ false → Holds A hash s key v x → Holds A hash s' key v x

-- An attempt to store bytes at a key. When it fails the key has its old bytes or the new ones.
pub record IsPut (A : StorageAdapter) (hash : Bytes → Text) (IsKey : Text → Type 0) (s : A.State)
    (key : Text) (b : Bytes) (out : A.State × Result PutObjectResult) : Type 0 where
  pub here : (r : PutObjectResult) → out.1 ≡ ok r → content A out.0 key ≡ some b
  pub failed :
      (e : AgentError)
      → out.1 ≡ err e
      → (content A out.0 key ≡ content A s key) ⊎ (content A out.0 key ≡ some b)
  pub other : (j : Text) → IsKey j → key === j ≡ false → content A out.0 j ≡ content A s j
  pub handle :
      (r : PutObjectResult) (v : Text)
      → out.1 ≡ ok r
      → r.version_id ≡ some v
      → Holds A hash out.0 key v (hash b)
  pub keeps : Keeps A hash s out.0

-- An attempt to delete a key. When it fails the key has its old bytes or none.
pub record IsDeletion (A : StorageAdapter) (hash : Bytes → Text) (IsKey : Text → Type 0)
    (s : A.State) (key : Text) (out : A.State × Result (Unit {0})) : Type 0 where
  pub gone : out.1 ≡ ok tt → A.get_object out.0 key none ≡ err no_such_key
  pub failed :
      (e : AgentError)
      → out.1 ≡ err e
      → (content A out.0 key ≡ content A s key) ⊎ (content A out.0 key ≡ none)
  pub other : (j : Text) → IsKey j → key === j ≡ false → content A out.0 j ≡ content A s j
  pub keeps : Keeps A hash s out.0

-- What the file operations rely on of a backend, at the keys that files may have.
pub record IsStorage (A : StorageAdapter) (hash : Bytes → Text) : Type 1 where
  pub IsKey : Text → Type 0
  pub IsValid : A.State → Type 0
  pub put :
      (s : A.State) (key : Text) (b : Bytes) (t : Option Text)
      → IsKey key
      → IsValid s
      → IsPut A hash IsKey s key b (A.put_object s key b t)
  pub copy :
      (s : A.State) (from to : Text) (b : Bytes)
      → IsKey to
      → IsValid s
      → content A s from ≡ some b
      → IsPut A hash IsKey s to b (A.copy_object s from to)
  pub copy_unread :
      (s : A.State) (from to : Text)
      → content A s from ≡ none
      → (e : AgentError) × (A.copy_object s from to ≡ (s, err e))
        × (A.get_object s from none ≡ err no_such_key → (e ≡ no_such_key) ⊎ (e ≡ validation))
  pub delete :
      (s : A.State) (key : Text)
      → IsKey key
      → IsValid s
      → IsDeletion A hash IsKey s key (A.delete_object s key)
  pub put-valid :
      (s : A.State) (key : Text) (b : Bytes) (t : Option Text)
      → IsKey key
      → IsValid s
      → IsValid (A.put_object s key b t).0
  pub copy-valid :
      (s : A.State) (from to : Text) → IsKey to → IsValid s → IsValid (A.copy_object s from to).0
  pub delete-valid :
      (s : A.State) (key : Text) → IsKey key → IsValid s → IsValid (A.delete_object s key).0
