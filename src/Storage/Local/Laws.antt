-- ===== src/Storage/Local/Laws.antt =====
-- The local backend: what its parts do to the keys of files and to the history blobs.
pub mod Guard
pub mod Blobs
pub mod Puts
pub mod Deletions
use agent_fs.Prelude.{
  ℕ, ◌≡◌, refl, sym, ◌∙◌, ap, subst, ◌⊎◌, inl, inr, Bool, true, false, Option, none, some, List, [],
  ◌∷◌, Text, text, starts_with, all, ◌===◌, arith, Bool-cases, if◌then◌else◌, eq_of_===,
}
use agent_fs.Errors.{Result, ok, err, AgentError, ◌>>◌, ◌>>=◌}
use agent_fs.Paths.{assert_key_inside_drive}
use agent_fs.Storage.{
  Bytes, PutObjectResult, GetObjectResult, StorageAdapter, Platform, content, version_content,
  Holds, Keeps, body_of,
}
use agent_fs.Storage.Legacy.{is_legacy_reserved_key}
use agent_fs.Storage.Legacy.{thrown}
use agent_fs.Storage.Disk.{
  Disk, IsDisk, Outcome, done, missing, broken, files_body, path_of, OthersKept, downloaded,
}
use agent_fs.Storage.Local.Laws.Guard.{is_hex_digit, under_blobs}
use agent_fs.Storage.Local.{
  blob_key, adapter, get_object, ensure_blob, translate, found, handle_of, target_of,
}

-- A key of a file: it stays inside the root, is spelled as its path is, stands beside the history
-- blobs, and has no name that legacy-reserved-keys.ts takes over.
pub record IsFileKey (key : Text) : Type 0 where
  pub inside : assert_key_inside_drive key ≡ ok tt
  pub plain : path_of key ≡ key
  pub aside : starts_with key (text "_afs-blobs/") ≡ false
  pub sdk : is_legacy_reserved_key key ≡ false

module _ (D : Disk) (P : Platform) where
  abbrev pub BlobHolds : D.State → Text → Text → Type 0
  BlobHolds s v x = (b : Bytes) × (files_body D s (blob_key v) ≡ some b) × (P.sha256 b ≡ x)

  -- Every history blob of a hexadecimal name, however its key is spelled, is named by its hash.
  abbrev pub IsAddressed : D.State → Type 0
  IsAddressed s =
      (h v : Text) (b : Bytes)
      → all is_hex_digit h ≡ true
      → assert_key_inside_drive (blob_key v) ≡ ok tt
      → path_of (blob_key v) ≡ blob_key h
      → files_body D s (blob_key v) ≡ some b
      → P.sha256 b ≡ h

  -- what one part of an operation leaves alone
  pub record IsAside (s s' : D.State) : Type 0 where
    pub addressed : IsAddressed s'
    pub holds :
        (v x : Text)
        → assert_key_inside_drive (blob_key v) ≡ ok tt
        → BlobHolds s v x
        → BlobHolds s' v x

  translated : (o : Outcome GetObjectResult) → body_of (translate o) ≡ downloaded o
  translated (done o) = refl
  translated missing = refl
  translated broken = refl

  abbrev pub guarded : Result (Unit {0}) → Option Bytes → Option Bytes
  guarded (ok u) b = b
  guarded (err e) b = none

  Result-cases : (r : Result (Unit {0})) → (r ≡ ok tt) ⊎ ((e : AgentError) × (r ≡ err e))
  Result-cases (ok u) = inl refl
  Result-cases (err e) = inr (e, refl)

  guarded-some :
      (r : Result (Unit {0})) (o : Option Bytes) (b : Bytes)
      → guarded r o ≡ some b
      → (r ≡ ok tt) × (o ≡ some b)
  guarded-some (ok u) o b h = (refl, h)
  guarded-some (err e) o b h = ground arith

  pub content_lem :
      (s : D.State) (key : Text) → IsFileKey key → content (adapter D P) s key ≡ files_body D s key
  unfolding get_object
  content_lem s key k = rw (k.inside, k.sdk) (translated (D.download s key))

  version_content_lem :
      (s : D.State) (key : Text) (c : ℕ) (v : Text)
      → version_content (adapter D P) s key (c ∷ v)
        ≡ guarded (assert_key_inside_drive key) (
            guarded
              (assert_key_inside_drive (blob_key (c ∷ v)))
              (files_body D s (blob_key (c ∷ v))))
  unfolding get_object
  version_content_lem s key c v = elim (Result-cases (assert_key_inside_drive key)) [
    | inr (e, bad) ↦ rw bad refl
    | inl good ↦ rw good (elim (Result-cases (assert_key_inside_drive (blob_key (c ∷ v)))) [
      | inr (e, bad) ↦ rw bad refl
      | inl well ↦ rw well (translated (D.download s (blob_key (c ∷ v))))
    ])
  ]

  pub content-same :
      (s s' : D.State) (j : Text)
      → IsFileKey j
      → files_body D s' j ≡ files_body D s j
      → content (adapter D P) s' j ≡ content (adapter D P) s j
  content-same s s' j k same = content_lem s' j k ∙ same ∙ sym (content_lem s j k)

  pub Holds_of_blob :
      (s : D.State) (key v x : Text)
      → assert_key_inside_drive key ≡ ok tt
      → v === [] ≡ false
      → assert_key_inside_drive (blob_key v) ≡ ok tt
      → BlobHolds s v x
      → Holds (adapter D P) P.sha256 s key v x
  unfolding ◌===◌
  Holds_of_blob s key [] x g nz gb h = ground arith
  Holds_of_blob s key (c ∷ v) x g nz gb (b, e, hx) =
      (b, version_content_lem s key c v ∙ (rw (g, gb) e), hx)

  pub IsAside-Keeps : (s s' : D.State) → IsAside s s' → Keeps (adapter D P) P.sha256 s s'
  unfolding ◌===◌
  IsAside-Keeps s s' a key [] x nz h = ground arith
  IsAside-Keeps s s' a key (c ∷ v) x nz (b, e, hx) =
      let (g, inner) =
        guarded-some (assert_key_inside_drive key) _ b (sym (version_content_lem s key c v) ∙ e) in
      let (gb, here) = guarded-some (assert_key_inside_drive (blob_key (c ∷ v))) _ b inner in
      Holds_of_blob s' key (c ∷ v) x g nz gb (a.holds (c ∷ v) x gb (b, here, hx))

  pub IsAside-refl : (s : D.State) → IsAddressed s → IsAside s s
  IsAside-refl s i = record { addressed = i; holds = λ v x g h. h }

  pub IsAside-trans : (s s' s'' : D.State) → IsAside s s' → IsAside s' s'' → IsAside s s''
  IsAside-trans s s' s'' a a' = record {
    addressed = a'.addressed;
    holds = λ v x g h. a'.holds v x g (a.holds v x g h);
  }

  pub apart_of_blob : (key v : Text) → IsFileKey key → path_of key === path_of (blob_key v) ≡ false
  apart_of_blob key v k = elim (Bool-cases (path_of key === path_of (blob_key v))) [
    | inr apart ↦ apart
    | inl same ↦
        let eq : key ≡ path_of (blob_key v) =
          sym k.plain ∙ eq_of_=== (path_of key) (path_of (blob_key v)) same in
        ground (arith, k.aside, ap (λ t. starts_with t (text "_afs-blobs/")) eq, under_blobs v)
  ]

  pub apart_of_key :
      (key j : Text)
      → IsFileKey key
      → IsFileKey j
      → key === j ≡ false
      → path_of key === path_of j ≡ false
  apart_of_key key j k k' differ = rw (k.plain, k'.plain) differ

  -- A call at the key of a file leaves the history alone.
  pub OthersKept-IsAside :
      (s s' : D.State) (key : Text)
      → IsFileKey key
      → IsAddressed s
      → OthersKept D s s' key
      → IsAside s s'
  OthersKept-IsAside s s' key k i o = record {
    addressed =
        λ h v b hex g p e. i h v b hex g p (sym (o (blob_key v) g (apart_of_blob key v k)) ∙ e);
    holds =
        λ v x g (h : BlobHolds s v x). (h.0, o (blob_key v) g (apart_of_blob key v k) ∙ h.1, h.2);
  }
