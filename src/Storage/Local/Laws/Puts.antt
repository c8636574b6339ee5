-- ===== src/Storage/Local/Laws/Puts.antt =====
-- `putObject` and `copyObject` of the local backend.
use agent_fs.Prelude.{◌≡◌, refl, ◌∙◌, subst, ◌⊎◌, inl, inr, false, Option, some, Text, ◌===◌, arith}
use agent_fs.Errors.{Result, ok, err, AgentError, and_then_elim}
use agent_fs.Storage.{Bytes, PutObjectResult, Platform, content, IsPut, Holds}
use agent_fs.Storage.Disk.{Disk, IsDisk, OthersKept, files_body}
use agent_fs.Storage.Local.{adapter, ensure_blob, put_plain, check_put, put_object}
use agent_fs.Storage.Local.Laws.{
  IsFileKey, IsAddressed, IsAside, apart_of_key, content_lem, content-same, Holds_of_blob,
  IsAside-Keeps, IsAside-refl, IsAside-trans, OthersKept-IsAside,
}
use agent_fs.Storage.Local.Laws.Guard.{IsHex, guard_of_blob}
use agent_fs.Storage.Local.Laws.Blobs.{IsEnsured, ensure_blob-IsEnsured, Stored-done}

module _ (D : Disk) (P : Platform) (L : IsDisk D) (hex : IsHex P) where
  -- what writing the plain key does
  record IsPlaced (s : D.State) (key : Text) (b : Bytes) (out : D.State × Result (Unit {0}))
      : Type 0 where
    aside : IsAside D P s out.0
    other : OthersKept D s out.0 key
    here : out.1 ≡ ok tt → files_body D out.0 key ≡ some b
    one_of : (files_body D out.0 key ≡ files_body D s key) ⊎ (files_body D out.0 key ≡ some b)

  put_plain-IsPlaced :
      (s : D.State) (key : Text) (b : Bytes) (t : Option Text)
      → IsFileKey key
      → IsAddressed D P s
      → IsPlaced s key b (put_plain D P s key b t)
  put_plain-IsPlaced s key b t k i =
      let (stored, spellings, others) = L.upload s key b t k.inside in
      rw (k.sdk, put_plain)
        (record {
          aside = OthersKept-IsAside D P s (D.upload s key b t).0 key k i others;
          other = others;
          here = λ e. Stored-done _ _ b stored e;
          one_of = spellings key k.inside refl;
        })

  abbrev pub PutHere : D.State → Text → Bytes → D.State × Result PutObjectResult → Type 0
  PutHere s key b out = IsPut (adapter D P) P.sha256 IsFileKey s key b out

  pub failed_put :
      (s s' : D.State) (key : Text) (b : Bytes) (e : AgentError)
      → IsAside D P s s'
      → ((j : Text) → IsFileKey j → key === j ≡ false → files_body D s' j ≡ files_body D s j)
      → (content (adapter D P) s' key ≡ content (adapter D P) s key)
        ⊎ (content (adapter D P) s' key ≡ some b)
      → PutHere s key b (s', err e)
  failed_put s s' key b e a others was = record {
    here = λ r h. ground arith;
    failed = λ x h. was;
    other = λ j k d. content-same D P s s' j k (others j k d);
    handle = λ r v h. ground arith;
    keeps = IsAside-Keeps D P s s' a;
  }

  content_either :
      (s s' : D.State) (key : Text) (b : Bytes)
      → IsFileKey key
      → (files_body D s' key ≡ files_body D s key) ⊎ (files_body D s' key ≡ some b)
      → (content (adapter D P) s' key ≡ content (adapter D P) s key)
        ⊎ (content (adapter D P) s' key ≡ some b)
  content_either s s' key b k (inl old) = inl (content-same D P s s' key k old)
  content_either s s' key b k (inr new) = inr (content_lem D P s' key k ∙ new)

  module _ (s : D.State) (key : Text) (b : Bytes) (t : Option Text) (k : IsFileKey key)
      (i : IsAddressed D P s) where
    abbrev s1 : D.State
    s1 = (ensure_blob D P s b).0

    abbrev s2 : D.State
    s2 = (put_plain D P s1 key b t).0

    ensured : IsEnsured D P L hex s b (ensure_blob D P s b)
    ensured = ensure_blob-IsEnsured D P L hex s b i

    placed : IsPlaced s1 key b (put_plain D P s1 key b t)
    placed = put_plain-IsPlaced s1 key b t k ensured.aside.addressed

    both : IsAside D P s s2
    both = IsAside-trans D P s s1 s2 ensured.aside placed.aside

    others : (j : Text) → IsFileKey j → key === j ≡ false → files_body D s2 j ≡ files_body D s j
    others j kj d = placed.other j kj.inside (apart_of_key D P key j k kj d) ∙ ensured.same j kj

    one_of : (files_body D s2 key ≡ files_body D s key) ⊎ (files_body D s2 key ≡ some b)
    one_of = elim placed.one_of [ inl old ↦ inl (old ∙ ensured.same key k) | inr new ↦ inr new ]

    done_put :
        (ensure_blob D P s b).1 ≡ ok tt
        → (put_plain D P s1 key b t).1 ≡ ok tt
        → PutHere s key b
            (s2, ok (record { etag = some (P.sha256 b); version_id = some (P.sha256 b) }))
    done_put e1 e2 = record {
      here = λ r h. content_lem D P s2 key k ∙ placed.here e2;
      failed = λ e h. ground arith;
      other = λ j kj d. content-same D P s s2 j kj (others j kj d);
      handle = λ r v h hv.
          let same : P.sha256 b ≡ v = ground (arith, h, hv) in
          let inside = guard_of_blob (P.sha256 b) (hex b).1 in
          subst (λ x. Holds (adapter D P) P.sha256 s2 key x (P.sha256 b)) same
            (Holds_of_blob D P s2 key (P.sha256 b) (P.sha256 b) k.inside (hex b).0 inside
              (placed.aside.holds (P.sha256 b) (P.sha256 b) inside (ensured.there e1)));
      keeps = IsAside-Keeps D P s s2 both;
    }

    pub put_object-IsPut : PutHere s key b (put_object D P s key b t)
    unfolding put_object
    put_object-IsPut =
        and_then_elim (PutHere s key b) (s, check_put D P s key) _
          (λ e h. failed_put s s key b e (IsAside-refl D P s i) (λ j kj d. refl) (inl refl))
          (λ u c.
            and_then_elim (PutHere s key b) (ensure_blob D P s b) _
              (λ e h.
                failed_put s s1 key b e ensured.aside (λ j kj d. ensured.same j kj)
                  (inl (content-same D P s s1 key k (ensured.same key k))))
              (λ u1 e1.
                and_then_elim (PutHere s key b) (put_plain D P s1 key b t) _
                  (λ e h. failed_put s s2 key b e both others (content_either s s2 key b k one_of))
                  (λ u2 e2. done_put e1 e2)))

    pub put_object-IsAddressed : IsAddressed D P (put_object D P s key b t).0
    unfolding put_object
    put_object-IsAddressed =
        and_then_elim (λ out. IsAddressed D P out.0) (s, check_put D P s key) _ (λ e h. i)
          (λ u c.
            and_then_elim (λ out. IsAddressed D P out.0) (ensure_blob D P s b) _
              (λ e h. ensured.aside.addressed)
              (λ u1 e1.
                and_then_elim (λ out. IsAddressed D P out.0) (put_plain D P s1 key b t) _
                  (λ e h. both.addressed) (λ u2 e2. both.addressed)))
