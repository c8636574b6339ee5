-- ===== src/Storage/Local/Laws/Deletions.antt =====
-- `copyObject` and `deleteObject` of the local backend, and the whole contract.
use agent_fs.Prelude.{◌≡◌, refl, ◌∙◌, ap, subst, ◌⊎◌, inl, inr, none, some, Text, arith}
use agent_fs.Errors.{
  Result, ok, err, AgentError, no_such_key, files_error, validation, and_then_elim, ◌>>◌,
}
use agent_fs.Paths.{assert_key_inside_drive}
use agent_fs.Storage.{
  Bytes, PutObjectResult, GetObjectResult, Platform, IsStorage, content, body_of, IsPut, IsDeletion,
}
use agent_fs.Storage.Disk.{
  Disk, IsDisk, Outcome, done, missing, broken, files_body, OthersKept, Removed,
}
use agent_fs.Storage.Local.{adapter, get_object, delete_object, copy_object, put_object, deleted}
use agent_fs.Storage.Local.Laws.{
  IsFileKey, IsAddressed, apart_of_key, content_lem, content-same, IsAside-Keeps, IsAside-refl,
  OthersKept-IsAside,
}
use agent_fs.Storage.Local.Laws.Guard.{IsHex}
use agent_fs.Storage.Local.Laws.Puts.{failed_put, put_object-IsPut, put_object-IsAddressed}

read_ok :
    (g g' : Result (Unit {0})) (r : Result GetObjectResult) (o : GetObjectResult)
    → g >> (g' >> r) ≡ ok o
    → r ≡ ok o
read_ok (ok u) (ok u') r o h = h
read_ok (ok u) (err e) r o h = ground arith
read_ok (err e) g' r o h = ground arith

guard_err : (key : Text) (e : AgentError) → assert_key_inside_drive key ≡ err e → e ≡ validation
unfolding assert_key_inside_drive
guard_err key e h = ground arith

-- The error of a copy whose source gave none: the source's, or the guard's of the destination.
read_err :
    (g g' : Result (Unit {0})) (r : Result GetObjectResult)
    → ((e : AgentError) → g ≡ err e → r ≡ err e)
    → ((e : AgentError) → g' ≡ err e → e ≡ validation)
    → body_of r ≡ none
    → (e : AgentError) × (g >> (g' >> r) ≡ err e)
      × (r ≡ err no_such_key → (e ≡ no_such_key) ⊎ (e ≡ validation))
read_err (ok u) (ok u') (ok o) first second h = ground arith
read_err (ok u) (ok u') (err e) first second h = (e, refl, λ m. inl (ground arith))
read_err (ok u) (err e) r first second h = (e, refl, λ m. inr (second e refl))
read_err (err e) g' r first second h = (e, refl, λ m. inl (ground (arith, first e refl)))

module _ (D : Disk) (P : Platform) (L : IsDisk D) (hex : IsHex P) where
  abbrev pub Gone : D.State → Text → D.State × Result (Unit {0}) → Type 0
  Gone s key out = IsDeletion (adapter D P) P.sha256 IsFileKey s key out

  pub copy_object-IsPut :
      (s : D.State) (from to : Text) (b : Bytes)
      → IsFileKey to
      → IsAddressed D P s
      → content (adapter D P) s from ≡ some b
      → IsPut (adapter D P) P.sha256 IsFileKey s to b (copy_object D P s from to)
  unfolding copy_object
  copy_object-IsPut s from to b k i e =
      and_then_elim (λ out. IsPut (adapter D P) P.sha256 IsFileKey s to b out) _ _
        (λ x h. failed_put D P L hex s s to b x (IsAside-refl D P s i) (λ j kj d. refl) (inl refl))
        (λ o h.
          let read =
            read_ok (assert_key_inside_drive from) (assert_key_inside_drive to)
              (get_object D P s from none) o h in
          let same : o.body ≡ b = ground (arith, ap body_of read, e) in
          subst
            (λ x.
              IsPut (adapter D P) P.sha256 IsFileKey s to x
                (put_object D P s to o.body o.content_type))
            same (put_object-IsPut D P L hex s to o.body o.content_type k i))

  pub copy_object-unread :
      (s : D.State) (from to : Text)
      → content (adapter D P) s from ≡ none
      → (e : AgentError) × (copy_object D P s from to ≡ (s, err e))
        × (get_object D P s from none ≡ err no_such_key → (e ≡ no_such_key) ⊎ (e ≡ validation))
  unfolding copy_object
  copy_object-unread s from to h =
      let (e, no_read, kind) =
        read_err (assert_key_inside_drive from) (assert_key_inside_drive to)
          (get_object D P s from none) (λ e g. unfold get_object in rw g refl) (guard_err to) h in
      (e, rw no_read refl, kind)

  pub copy_object-IsAddressed :
      (s : D.State) (from to : Text)
      → IsFileKey to
      → IsAddressed D P s
      → IsAddressed D P (copy_object D P s from to).0
  unfolding copy_object
  copy_object-IsAddressed s from to k i =
      and_then_elim {B = PutObjectResult} (λ out. IsAddressed D P out.0)
        (
          s,
          assert_key_inside_drive from
              >> (assert_key_inside_drive to >> get_object D P s from none),
        )
        (λ s0 src. put_object D P s0 to src.body src.content_type) (λ x h. i)
        (λ o h. put_object-IsAddressed D P L hex s to o.body o.content_type k i)

  -- A deletion that ended well reads as a missing object.
  missing_deletion :
      (s s' : D.State) (key : Text)
      → IsFileKey key
      → IsAddressed D P s
      → OthersKept D s s' key
      → get_object D P s' key none ≡ err no_such_key
      → Gone s key (s', ok tt)
  missing_deletion s s' key k i others g = record {
    gone = λ h. g;
    failed = λ e h. ground arith;
    other =
        λ j kj d. content-same D P s s' j kj (others j kj.inside (apart_of_key D P key j k kj d));
    keeps = IsAside-Keeps D P s s' (OthersKept-IsAside D P s s' key k i others);
  }

  failed_deletion :
      (s s' : D.State) (key : Text) (e : AgentError)
      → IsFileKey key
      → IsAddressed D P s
      → OthersKept D s s' key
      → (files_body D s' key ≡ files_body D s key) ⊎ (files_body D s' key ≡ none)
      → Gone s key (s', err e)
  failed_deletion s s' key e k i others was = record {
    gone = λ h. ground arith;
    failed = λ x h. elim was [
      | inl old ↦ inl (content-same D P s s' key k old)
      | inr new ↦ inr (content_lem D P s' key k ∙ new)
    ];
    other =
        λ j kj d. content-same D P s s' j kj (others j kj.inside (apart_of_key D P key j k kj d));
    keeps = IsAside-Keeps D P s s' (OthersKept-IsAside D P s s' key k i others);
  }

  removed :
      (s s' : D.State) (key : Text)
      → IsFileKey key
      → IsAddressed D P s
      → OthersKept D s s' key
      → (o : Outcome (Unit {0})) → Removed o (files_body D s key) (D.download s' key)
      → Gone s key (s', deleted o)
  unfolding get_object
  removed s s' key k i others (done u) h =
      missing_deletion s s' key k i others (rw (k.inside, k.sdk, h) refl)
  removed s s' key k i others missing h =
      missing_deletion s s' key k i others (rw (k.inside, k.sdk, h) refl)
  removed s s' key k i others broken h = failed_deletion s s' key files_error k i others h

  pub delete_object-IsDeletion :
      (s : D.State) (key : Text)
      → IsFileKey key
      → IsAddressed D P s
      → Gone s key (delete_object D P s key)
  unfolding delete_object
  delete_object-IsDeletion s key k i =
      and_then_elim (Gone s key) (s, assert_key_inside_drive key) _
        (λ e h. record {
          gone = λ x. ground arith;
          failed = λ x y. inl refl;
          other = λ j kj d. refl;
          keeps = λ j v x nz held. held;
        })
        (λ u g.
          let (r, others) = L.delete s key k.inside in
          rw k.sdk (removed s (D.delete s key).0 key k i others (D.delete s key).1 r))

  pub delete_object-IsAddressed :
      (s : D.State) (key : Text)
      → IsFileKey key
      → IsAddressed D P s
      → IsAddressed D P (delete_object D P s key).0
  unfolding delete_object
  delete_object-IsAddressed s key k i =
      and_then_elim (λ out. IsAddressed D P out.0) (s, assert_key_inside_drive key) _ (λ e h. i)
        (λ u g. rw k.sdk (OthersKept-IsAside D P s _ key k i (L.delete s key k.inside).1).addressed)

  abbrev pub lawful : IsStorage (adapter D P) P.sha256
  lawful = record {
    IsKey = IsFileKey;
    IsValid = IsAddressed D P;
    put = put_object-IsPut D P L hex;
    copy = copy_object-IsPut;
    copy_unread = copy_object-unread;
    delete = delete_object-IsDeletion;
    put-valid = put_object-IsAddressed D P L hex;
    copy-valid = copy_object-IsAddressed;
    delete-valid = delete_object-IsAddressed;
  }

  -- The local backend, over a disk that keeps its promises and with digests in hexadecimal, keeps
  -- the contract of a backend, in every state where each history blob of a hexadecimal name is named
  -- by its hash, at every key that the guard of keys lets through, that has no empty segment, that is
  -- not below "_afs-blobs/", and whose name does not end as the staging files of files-sdk do.
  pub adapter-IsStorage :
      (C : IsStorage (adapter D P) P.sha256) × ((key : Text) → IsFileKey key → C.IsKey key)
      × ((s : D.State) → IsAddressed D P s → C.IsValid s)
  adapter-IsStorage = (lawful, (λ key k. k), λ s i. i)
