-- ===== src/Storage/Local/Laws/Blobs.antt =====
-- The history blob that a put of the local backend writes first.
use agent_fs.Prelude.{
  ◌≡◌, refl, sym, ◌∙◌, ap, ◌⊎◌, inl, inr, Bool, true, false, Option, none, some, Text, ◌===◌,
  differ_sym, drop, arith, Bool-cases, eq_of_===,
}
use agent_fs.Errors.{Result, ok, err, files_error}
use agent_fs.Paths.{assert_key_inside_drive}
use agent_fs.Storage.{Bytes, Platform}
use agent_fs.Storage.Legacy.{thrown}
use agent_fs.Storage.Disk.{
  Disk, IsDisk, Outcome, done, missing, broken, files_body, Stored, path_of,
}
use agent_fs.Storage.Local.{blob_key, ensure_blob}
use agent_fs.Storage.Local.Laws.{
  IsFileKey, BlobHolds, IsAddressed, IsAside, IsAside-refl, apart_of_blob,
}
use agent_fs.Storage.Local.Laws.Guard.{IsHex, guard_of_blob, path_of_blob}

blob_key_inj : (v w : Text) → blob_key v ≡ blob_key w → v ≡ w
unfolding blob_key
blob_key_inj v w e = ap (drop 18) e

pub Stored-done :
    (o : Outcome (Unit {0})) (after : Option Bytes) (b : Bytes)
    → Stored o after b
    → thrown o ≡ ok tt
    → after ≡ some b
Stored-done (done u) after b h e = h
Stored-done missing after b h e = ground arith
Stored-done broken after b h e = ground arith

module _ (D : Disk) (P : Platform) (L : IsDisk D) (hex : IsHex P) where
  pub record IsEnsured (s : D.State) (b : Bytes) (out : D.State × Result (Unit {0})) : Type 0 where
    pub aside : IsAside D P s out.0
    pub same : (j : Text) → IsFileKey j → files_body D out.0 j ≡ files_body D s j
    pub there : out.1 ≡ ok tt → BlobHolds D P out.0 (P.sha256 b) (P.sha256 b)

  unchanged_ensured :
      (s : D.State) (b : Bytes) (r : Result (Unit {0}))
      → IsAddressed D P s
      → (r ≡ ok tt → BlobHolds D P s (P.sha256 b) (P.sha256 b))
      → IsEnsured s b (s, r)
  unchanged_ensured s b r i there = record {
    aside = IsAside-refl D P s i;
    same = λ j k. refl;
    there = there;
  }

  module _ (s : D.State) (b : Bytes) (i : IsAddressed D P s) where
    abbrev h : Text
    h = P.sha256 b

    abbrev s' : D.State
    s' = (D.upload s (blob_key h) b none).0

    abbrev o : Outcome (Unit {0})
    o = (D.upload s (blob_key h) b none).1

    inside : assert_key_inside_drive (blob_key h) ≡ ok tt
    inside = guard_of_blob h (hex b).1

    spelled : path_of (blob_key h) ≡ blob_key h
    spelled = path_of_blob h (hex b).0 (hex b).1

    -- What a spelling of a history blob reads as after the upload.
    after_upload :
        (v : Text)
        → assert_key_inside_drive (blob_key v) ≡ ok tt
        → (files_body D s' (blob_key v) ≡ files_body D s (blob_key v))
          ⊎ ((path_of (blob_key v) ≡ blob_key h) × (files_body D s' (blob_key v) ≡ some b))
    after_upload v g =
        let (stored, spellings, others) = L.upload s (blob_key h) b none inside in
        elim (Bool-cases (path_of (blob_key h) === path_of (blob_key v))) [
          | inr apart ↦ inl (others (blob_key v) g apart)
          | inl same ↦
              let eq = eq_of_=== (path_of (blob_key h)) (path_of (blob_key v)) same in
              elim (spellings (blob_key v) g eq) [
                | inl old ↦ inl old
                | inr new ↦ inr (sym eq ∙ spelled, new)
              ]
        ]

    uploaded-IsAddressed : IsAddressed D P s'
    uploaded-IsAddressed x v b' hx g p e = elim (after_upload v g) [
      | inl old ↦ i x v b' hx g p (sym old ∙ e)
      | inr (here, new) ↦
          let same : h ≡ x = blob_key_inj h x (sym here ∙ p) in
          let bytes : b ≡ b' = ground (arith, sym new ∙ e) in ap P.sha256 (sym bytes) ∙ same
    ]

    uploaded_holds :
        (v x : Text)
        → assert_key_inside_drive (blob_key v) ≡ ok tt
        → BlobHolds D P s v x
        → BlobHolds D P s' v x
    uploaded_holds v x g (b', e, hx) = elim (after_upload v g) [
      | inl old ↦ (b', old ∙ e, hx)
      | inr (here, new) ↦ (b, new, sym (i h v b' (hex b).1 g here e) ∙ hx)
    ]

    upload_ensured : IsEnsured s b (s', thrown o)
    upload_ensured =
        let (stored, spellings, others) = L.upload s (blob_key h) b none inside in
        record {
          aside = record { addressed = uploaded-IsAddressed; holds = uploaded_holds };
          same = λ j k.
              others j k.inside
                (differ_sym (path_of j) (path_of (blob_key h)) (apart_of_blob D P j h k));
          there = λ e. (b, Stored-done o _ b stored e, refl);
        }

    ensured : (x : Outcome Bool) → D.exists s (blob_key h) ≡ x → IsEnsured s b (ensure_blob D P s b)
    ensured (done true) e =
        rw (e, ensure_blob)
          (unchanged_ensured s b (ok tt) i (λ r.
            let (b', here) = L.exists s (blob_key h) e in
            (b', here, i h h b' (hex b).1 inside spelled here)))
    ensured (done false) e = rw (e, ensure_blob) upload_ensured
    ensured missing e =
        rw (e, ensure_blob) (unchanged_ensured s b (err files_error) i (λ r. ground arith))
    ensured broken e =
        rw (e, ensure_blob) (unchanged_ensured s b (err files_error) i (λ r. ground arith))

    pub ensure_blob-IsEnsured : IsEnsured s b (ensure_blob D P s b)
    ensure_blob-IsEnsured = ensured (D.exists s (blob_key h)) refl
