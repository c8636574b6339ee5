-- ===== src/Drive/Laws/Restored.antt =====
-- A version that was written, and a revert to it after any further requests.
use agent_fs.Prelude.{
  ℕ, ◌+◌, ◌<◌, ◌≡◌, refl, sym, ap, subst, ◌∙◌, Bool, true, Option, none, some, List, [], ◌∷◌, ◌++◌,
  Text, ===_refl, arith, find?,
}
use agent_fs.Errors.{Result, ok, and_then_elim}
use agent_fs.Paths.{normalize_path}
use agent_fs.Storage.{Bytes, Platform, StorageAdapter, IsStorage}
use agent_fs.Files.{FileVersion, Operation, OpContext, max_version}
use agent_fs.Files.Versions.{Drawn, new_version}
use agent_fs.Files.Write.{Checked, check_write}
use agent_fs.Drive.{
  Drive, key_of, checked, expect, store_version, stored_version, write_params, after_check, write,
  revert, is_version, handle_of_row, assert_capability,
}
use agent_fs.Drive.Requests.{Request, handle, IsOfVersion}
use agent_fs.Drive.Laws.{IsDriveContext, IsRecorded, view, Grows, Grows-refl, Grows-trans}
use agent_fs.Drive.Laws.Stores.{OnOk, store_version-elim, store_version-IsGiven}
use agent_fs.Drive.Laws.Handles.{read_handle}
use agent_fs.Drive.Laws.Confined.{write-IsConfined}
use agent_fs.Drive.Laws.Safe.{handle-IsConfined}

-- The first row that passes stays the first when rows are added.
find?-append_some {ℓ} :
    {A : Type ℓ} (p : A → Bool) (xs ys : List A) (a : A)
    → find? p xs ≡ some a
    → find? p (xs ++ ys) ≡ some a
find?-append_some p [] ys a h = ground arith
find?-append_some p (x ∷ xs) ys a h = ground (arith, find?-append_some p xs ys a)

find?-append_none {ℓ} :
    {A : Type ℓ} (p : A → Bool) (xs ys : List A)
    → find? p xs ≡ none
    → find? p (xs ++ ys) ≡ find? p ys
find?-append_none p [] ys h = refl
find?-append_none p (x ∷ xs) ys h = ground (arith, find?-append_none p xs ys)

-- No row has a version above the highest.
find?-above :
    (p d : Text) (v : ℕ) (rows : List FileVersion)
    → max_version p d rows < v
    → find? (is_version p d v) rows ≡ none
unfolding max_version
find?-above p d v [] h = refl
find?-above p d v (r ∷ rows) h = ground (arith, find?-above p d v rows)

module _ (A : StorageAdapter) (P : Platform) (L : IsStorage A P.sha256) (ctx : OpContext)
    (own : IsDriveContext A P L ctx) where
  unfoldable pub run_all : Drive A → List Request → Drive A
  run_all d [] = d
  run_all d (request ∷ requests) = run_all (handle A P d ctx request).0 requests

  run_all-Grows :
      (d : Drive A) (requests : List Request)
      → IsRecorded A P L ctx d
      → IsRecorded A P L ctx (run_all d requests)
        × Grows d.db.versions (run_all d requests).db.versions
  unfolding run_all
  run_all-Grows d [] i = (i, Grows-refl d.db.versions)
  run_all-Grows d (request ∷ requests) i =
      let c = (handle-IsConfined A P L ctx own d i request).0 in
      let next = (handle A P d ctx request).0 in
      let (i', g) = run_all-Grows next requests c.recorded in
      (i', Grows-trans d.db.versions next.db.versions _ c.grows g)

  -- the row of this version says this hash
  abbrev Says : Text → ℕ → Text → Drive A → Type 0
  Says path n x d =
      (r : FileVersion) × (find? (is_version (normalize_path path) ctx.drive_id n) d.db.versions
        ≡ some r)
      × (r.content_hash ≡ some x)

  run_all-Says :
      (d : Drive A) (requests : List Request) (path x : Text) (n : ℕ)
      → IsRecorded A P L ctx d
      → Says path n x d
      → Says path n x (run_all d requests)
  run_all-Says d requests path x n i (r, found, hash) =
      let (i', (more, grown)) = run_all-Grows d requests i in
      (
        r,
        ap (find? (is_version (normalize_path path) ctx.drive_id n)) grown
            ∙ find?-append_some (is_version (normalize_path path) ctx.drive_id n) d.db.versions more
                r found,
        hash,
      )

  module _ (d : Drive A) (i : IsRecorded A P L ctx d) where
    abbrev SaysWritten : Text → Bytes → Drive A × Result ℕ → Type 0
    SaysWritten path bytes out = (n : ℕ) → out.1 ≡ ok n → Says path n (P.sha256 bytes) out.0

    stored-SaysWritten :
        (path : Text) (operation : Operation) (bytes : Bytes) (drawn : Drawn)
        → SaysWritten path bytes (store_version A P d ctx path operation bytes drawn)
    stored-SaysWritten path operation bytes drawn =
        let top = max_version (normalize_path path) ctx.drive_id d.db.versions + 1 in
        let p = is_version (normalize_path path) ctx.drive_id top in
        store_version-elim A P L ctx own d path operation bytes drawn i (SaysWritten path bytes)
          (λ e n h. ground arith)
          (λ r e n h.
            let same : top ≡ n = ground (arith, h) in
            let row = new_version ctx (stored_version A P path operation bytes r) top drawn.now in
            let mine : p row ≡ true =
              ground (arith, ===_refl (normalize_path path), ===_refl ctx.drive_id) in
            let here : find? p (d.db.versions ++ row ∷ []) ≡ some row =
              find?-append_none p d.db.versions (row ∷ [])
                (find?-above (normalize_path path) ctx.drive_id top d.db.versions (omega arith))
              ∙ (rw mine refl) in
            subst
              (λ k.
                (x : FileVersion) × (find? (is_version (normalize_path path) ctx.drive_id k)
                    (d.db.versions ++ row ∷ [])
                  ≡ some x)
                × (x.content_hash ≡ some (P.sha256 bytes)))
              same (row, here, refl))

    write-SaysWritten :
        (m : ℕ) (path : Text) (bytes : Bytes) (drawn : Drawn)
        → SaysWritten path bytes (write A P d ctx m path bytes none drawn)
    unfolding write
    write-SaysWritten m path bytes drawn =
        and_then_elim (SaysWritten path bytes)
          (checked A P d (check_write d.db ctx m (write_params A P path bytes none))) _
          (λ e h n h'. ground arith) by_check
      where
        by_check :
            (k : Checked)
            → check_write d.db ctx m (write_params A P path bytes none) ≡ ok k
            → SaysWritten path bytes (after_check A P d ctx path bytes drawn k)
        by_check (Checked.deduped n) h = unfold check_write in ground arith
        by_check Checked.upload h = stored-SaysWritten path Operation.write bytes drawn

    -- A revert that succeeds leaves bytes of the hash that the version's row says.
    revert_gives :
        (path : Text) (version : ℕ) (expected : Option ℕ) (drawn : Drawn)
        → OnOk A P L ctx own
            (λ d'.
              (b : Bytes) × (view A P L ctx d' path ≡ some b)
              × IsOfVersion P d.db ctx path version b)
            (revert A P d ctx path version expected drawn)
    unfolding revert
    revert_gives path version expected drawn =
        let Q = OnOk A P L ctx own (λ (d' : Drive A).
          (b : Bytes) × (view A P L ctx d' path ≡ some b)
          × IsOfVersion P d.db ctx path version b) in
        let row = find? (is_version (normalize_path path) ctx.drive_id version) d.db.versions in
        and_then_elim Q (checked A P d (assert_capability A P)) _ (λ e h n h'. ground arith)
          (λ u g.
            and_then_elim Q (expect A P d ctx path expected) _ (λ e h n h'. ground arith)
              (λ v h.
                and_then_elim Q (checked A P d (handle_of_row A P row)) _ (λ e h n h'. ground arith)
                  (λ handle r.
                    and_then_elim Q
                      (checked A P d (A.get_object d.store (key_of ctx path) (some handle))) _
                      (λ e h n h'. ground arith)
                      (λ old got n done.
                        let s =
                          store_version-IsGiven A P L ctx own d path Operation.revert old.body drawn
                            i n done in
                        (
                          old.body,
                          s.same path ∙ (rw (===_refl (normalize_path path)) refl),
                          read_handle A P L ctx own d i path handle version old r got,
                        )))))

  -- A write without an expected version that succeeded made a version of its path. After any
  -- sequence of further requests, whether they succeed or fail and also when the backend fails in the
  -- middle of them, a revert of the path to that version that succeeds leaves the path with bytes of
  -- the hash of the bytes that were written.
  pub revert_restores :
      (d d1 d2 : Drive A) (m n k : ℕ) (path : Text) (bytes : Bytes) (drawn drawn' : Drawn)
      (requests : List Request) (expected : Option ℕ)
      → IsRecorded A P L ctx d
      → write A P d ctx m path bytes none drawn ≡ (d1, ok n)
      → revert A P (run_all d1 requests) ctx path n expected drawn' ≡ (d2, ok k)
      → (b : Bytes) × (view A P L ctx d2 path ≡ some b) × (P.sha256 b ≡ P.sha256 bytes)
  revert_restores d d1 d2 m n k path bytes drawn drawn' requests expected i wrote reverted =
      let says =
        subst (λ o. Says path n (P.sha256 bytes) o.0) wrote
          (write-SaysWritten d i m path bytes drawn n (ap (λ o. o.1) wrote)) in
      let i1 =
        subst (λ o. IsRecorded A P L ctx o.0) wrote
          (write-IsConfined A P L ctx own d i m path bytes none drawn).recorded in
      let d' = run_all d1 requests in
      let (r, found, hash) = run_all-Says d1 requests path (P.sha256 bytes) n i1 says in
      let (b, here, (r', found', hash')) =
        revert_gives d' (run_all-Grows d1 requests i1).0 path n expected drawn' k
          (ap (λ o. o.1) reverted) in
      let same : r ≡ r' = ground (arith, sym found ∙ found') in
      (
        b,
        subst (λ o. view A P L ctx o.0 path ≡ some b) reverted here,
        hash' (P.sha256 bytes) (ap (λ x. x.content_hash) (sym same) ∙ hash),
      )
